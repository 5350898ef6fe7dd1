-- ===== src/Generation/Rule/Bounds.antt =====
-- No rule is newer than the serial: what the search returns lies between the generation that it
-- starts from and a bound on the rules of the trie.
use ngx_cache_purge.Prelude.{
  ℕ, ◌≤◌, ◌≡◌, refl, ◌⊎◌, Bool, ◌&&◌, ◌||◌, List, [], ◌∷◌, ltb, if◌then◌else◌, is_empty, inl, inr,
  arith,
}
use ngx_cache_purge.Ngx.{Text}
use ngx_cache_purge.Generation.Rule.{Rule, null, node, siblings, fold, search_rules}

abbrev pub Bounded : ℕ → Rule → Type 0
Bounded v null = Unit {0}
Bounded v (node a b g child sibling) = (g ≤ v) × Bounded v child × Bounded v sibling

pub Bounded-mono : {v w : ℕ} (r : Rule) → v ≤ w → Bounded v r → Bounded w r
Bounded-mono null h b = tt
Bounded-mono (node a b g child sibling) h x =
    (omega arith, Bounded-mono child h x.1, Bounded-mono sibling h x.2)

pub siblings-Bounded : (v c : ℕ) (r : Rule) → Bounded v r → Bounded v (siblings c r)
unfolding siblings
siblings-Bounded v c null b = tt
siblings-Bounded v c (node a b g child sibling) x = ground (arith, siblings-Bounded v c sibling x.2)

pub Rule-cases :
    (r : Rule)
    → (r ≡ null)
      ⊎ ((a : ℕ) × (b : ℕ) × (g : ℕ) × (child : Rule) × (sibling : Rule) × (r
            ≡ node a b g child sibling))
Rule-cases null = inl refl
Rule-cases (node a b g child sibling) = inr (a, b, g, child, sibling, refl)

module _ (text : Text) where
  pub search_rules-le :
      (prefix : Bool) (v : ℕ) (r : Rule) (key : List ℕ) (g : ℕ)
      → Bounded v r
      → g ≤ v
      → search_rules text prefix r key g ≤ v
  unfolding search_rules
  search_rules-le prefix v r [] g b h = h
  search_rules-le prefix v r (c ∷ key) g b h = elim (Rule-cases (siblings (fold text prefix c) r)) [
    | inl e ↦ rw (e, search_rules) h
    | inr (a, b', g', child, sibling, e) ↦
        let below : Bounded v (node a b' g' child sibling) =
          rw e at (siblings-Bounded v (fold text prefix c) r b) in
        rw (e, search_rules) (search_rules-le prefix v child key _ below.1 (ground arith))
  ]

  pub le-search_rules :
      (prefix : Bool) (r : Rule) (key : List ℕ) (g : ℕ) → g ≤ search_rules text prefix r key g
  unfolding search_rules
  le-search_rules prefix r [] g = omega arith
  le-search_rules prefix r (c ∷ key) g = elim (Rule-cases (siblings (fold text prefix c) r)) [
    | inl e ↦ rw (e, search_rules) (omega arith)
    | inr (a, b', g', child, sibling, e) ↦
        rw (e, search_rules)
          (ground (
            arith,
            le-search_rules prefix child key
                (if (prefix || is_empty key) && ltb g g' then g' else g),
          ))
  ]
