-- ===== src/Generation/Rule/Select.antt =====
-- What adding a selector to a trie does to the generation of every key.
use ngx_cache_purge.Prelude.{
  ℕ, ◌≤◌, ◌≡◌, refl, Bool, true, false, ◌&&◌, ◌||◌, List, [], ◌∷◌, Option, some, ltb, ◌==◌,
  if◌then◌else◌, is_empty, inl, inr, Bool-cases, Option-cases, arith,
}
use mathlib.Core.Option.{some-injective}
use mathlib.Core.Path.{subst}
use ngx_cache_purge.Ngx.{Text, Slab}
use ngx_cache_purge.Generation.Rule.{
  Rule, null, node, siblings, fold, search_rules, Placed, place, first_tail, sizeof_rule, relink,
}
use ngx_cache_purge.Generation.Rule.Bounds.{Bounded, search_rules-le, le-search_rules}

module _ (text : Text) where
  -- A prefix selector covers the keys that begin with it, an exact one only its own key.
  unfoldable pub selects : Bool → List ℕ → List ℕ → Bool
  selects prefix [] key = prefix || is_empty key
  selects prefix (c ∷ selector) [] = false
  selects prefix (c ∷ selector) (d ∷ key) =
      fold text prefix c == fold text prefix d && selects prefix selector key

  -- How a trie grows: `Grows prefix v selector link link'` is a run of the loop whose allocations
  -- all succeed.
  pub data Grows (prefix : Bool) (v : ℕ) : List ℕ → Rule → Rule → Type 0 where
    done : (link : Rule) → Grows prefix v [] link link
    fresh :
        (c : ℕ) (key : List ℕ) (a : ℕ) (child : Rule)
        → Grows prefix v key null child
        → Grows prefix v
            (c ∷ key)
            null
            (node a (fold text prefix c) (if is_empty key then v else 0) child null)
    down :
        (c : ℕ) (key : List ℕ) (a b g : ℕ) (child sibling child' : Rule)
        → (b == fold text prefix c) ≡ true
        → Grows prefix v key child child'
        → Grows prefix v
            (c ∷ key)
            (node a b g child sibling)
            (node a b (if is_empty key then v else g) child' sibling)
    next :
        (c : ℕ) (key : List ℕ) (a b g : ℕ) (child sibling sibling' : Rule)
        → (b == fold text prefix c) ≡ false
        → Grows prefix v (c ∷ key) sibling sibling'
        → Grows prefix v (c ∷ key) (node a b g child sibling) (node a b g child sibling')

  pub Grows-Bounded :
      (prefix : Bool) (v : ℕ) {key : List ℕ} {link link' : Rule}
      → Grows prefix v key link link'
      → Bounded v link
      → Bounded v link'
  Grows-Bounded prefix v (done link) h = h
  Grows-Bounded prefix v (fresh c key a child below) h =
      (ground arith, Grows-Bounded prefix v below tt, tt)
  Grows-Bounded prefix v (down c key a b g child sibling child' e below) h =
      (ground arith, Grows-Bounded prefix v below h.1, h.2)
  Grows-Bounded prefix v (next c key a b g child sibling sibling' e below) h =
      (h.0, h.1, Grows-Bounded prefix v below h.2)

  -- At the key's first byte, for a node whose byte is the wanted one.
  search_rules-node :
      (prefix : Bool) (a b g : ℕ) (child sibling : Rule) (d : ℕ) (key : List ℕ) (now : ℕ)
      → search_rules text prefix (node a b g child sibling) (d ∷ key) now ≡ (
          if b == fold text prefix d
          then search_rules text prefix child key
              (if (prefix || is_empty key) && ltb now g then g else now)
          else search_rules text prefix sibling (d ∷ key) now)
  unfolding search_rules siblings
  search_rules-node prefix a b g child sibling d key now = ground arith

  pub search_rules-null :
      (prefix : Bool) (key : List ℕ) (now : ℕ) → search_rules text prefix null key now ≡ now
  unfolding search_rules siblings
  search_rules-null prefix [] now = refl
  search_rules-null prefix (d ∷ key) now = refl

  search_rules-nil : (prefix : Bool) (r : Rule) (now : ℕ) → search_rules text prefix r [] now ≡ now
  unfolding search_rules
  search_rules-nil prefix r now = refl

  -- The keys that the selector covers have the new generation, all others the one they had.
  pub search_rules-Grows :
      (prefix : Bool) (v : ℕ) {selector : List ℕ} {link link' : Rule}
      → Grows prefix v selector link link'
      → Bounded v link
      → is_empty selector ≡ false
      → (key : List ℕ) (now : ℕ) → now ≤ v
      → search_rules text prefix link' key now
        ≡ (if selects prefix selector key then v else search_rules text prefix link key now)
  unfolding selects
  search_rules-Grows prefix v (done link) h ne key now le = cc
  search_rules-Grows prefix v (fresh c selector a child below) h ne [] now le =
      simp search_rules-nil
  search_rules-Grows prefix v (fresh c [] a child (done _)) h ne (d ∷ key) now le = ground (
    arith,
    search_rules-node prefix a (fold text prefix c) v null null d key now,
    search_rules-null prefix key v,
    search_rules-null prefix key now,
    search_rules-null prefix (d ∷ key) now,
  )
  search_rules-Grows prefix v (fresh c (c' ∷ selector) a child below) h ne (d ∷ key) now le =
      ground (
        arith,
        search_rules-node prefix a (fold text prefix c) 0 child null d key now,
        search_rules-null prefix key now,
        search_rules-null prefix (d ∷ key) now,
        search_rules-Grows prefix v below h refl key now le,
      )
  search_rules-Grows prefix v (down c selector a b g child sibling child' e below) h ne [] now le =
      simp search_rules-nil
  search_rules-Grows prefix v (down c [] a b g child sibling child' e (done _)) h ne (d ∷ key) now
        le =
      ground (
        arith,
        search_rules-node prefix a b v child sibling d key now,
        search_rules-node prefix a b g child sibling d key now,
        search_rules-le text prefix v child key v h.1,
        le-search_rules text prefix child key v,
      )
  search_rules-Grows prefix v (down c (c' ∷ selector) a b g child sibling child' e below) h ne
        (d ∷ key) now le =
      ground (
        arith,
        search_rules-node prefix a b g child' sibling d key now,
        search_rules-node prefix a b g child sibling d key now,
        search_rules-Grows prefix v below h.1 refl key
            (if (prefix || is_empty key) && ltb now g then g else now),
      )
  search_rules-Grows prefix v (next c selector a b g child sibling sibling' e below) h ne [] now
        le =
      simp search_rules-nil
  search_rules-Grows prefix v (next c selector a b g child sibling sibling' e below) h ne (d ∷ key)
        now le =
      ground (
        arith,
        search_rules-node prefix a b g child sibling' d key now,
        search_rules-node prefix a b g child sibling d key now,
        search_rules-Grows prefix v below h.2 ne (d ∷ key) now le,
      )

relink-some :
    {S : Type 0} (p : Placed S) (f : Rule → Rule) (r : Rule)
    → (relink p f).rule ≡ some r
    → (r' : Rule) × (p.rule ≡ some r') × (r ≡ f r')
relink-some p f r h = ground arith

module _ {S : Type 0} (text : Text) (slab : Slab S) where
  pub place-Grows :
      (prefix : Bool) (v : ℕ) (key : List ℕ) (link : Rule) (al : List ℕ) (tail : Option ℕ) (s : S)
      (r : Rule)
      → (place text slab prefix v key link al tail s).rule ≡ some r
      → Grows text prefix v key link r
  unfolding place
  place-Grows prefix v [] link al tail s r h =
      subst (Grows text prefix v [] link) (some-injective _ _ h) (done link)
  place-Grows prefix v (c ∷ key) null al tail s r h =
      elim (Option-cases (slab.calloc sizeof_rule s)) [
        | inl e ↦ ground arith
        | inr ((a, s'), e) ↦
            let (child, p, q) =
              relink-some (place text slab prefix v key null (a ∷ al) (first_tail tail a) s')
                (λ child. node a (fold text prefix c) (if is_empty key then v else 0) child null) r
                (ground arith) in
            rw q (
              fresh c key a child
                (place-Grows prefix v key null (a ∷ al) (first_tail tail a) s' child p))
      ]
  place-Grows prefix v (c ∷ key) (node a b g child sibling) al tail s r h =
      elim (Bool-cases (b == fold text prefix c)) [
        | inl e ↦
            let (child', p, q) =
              relink-some (place text slab prefix v key child al tail s)
                (λ child'. node a b (if is_empty key then v else g) child' sibling) r
                (ground arith) in
            rw q (
              down c key a b g child sibling child' e
                (place-Grows prefix v key child al tail s child' p))
        | inr e ↦
            let (sibling', p, q) =
              relink-some (place text slab prefix v (c ∷ key) sibling al tail s)
                (λ sibling'. node a b g child sibling') r (ground arith) in
            rw q (
              next c key a b g child sibling sibling' e
                (place-Grows prefix v (c ∷ key) sibling al tail s sibling' p))
      ]
