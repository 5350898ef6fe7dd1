-- ===== src/Refresh/Smallest.antt =====
-- A batch has the smallest hashes of those it was offered, so that the next scan, which begins
-- behind the largest of them, leaves nothing out.
use mathlib.Core.Path.{subst}
use ngx_cache_purge.Prelude.{
  ℕ, suc, ◌≡◌, inl, inr, refl, sym, ◌∙◌, ap, true, false, List, [], ◌∷◌, ◌==◌, length, ==_iff,
  Bool-cases, arith,
}
use ngx_cache_purge.Queue.Counts.{All}
use ngx_cache_purge.Walk.Tree.{memcmp}
use ngx_cache_purge.Refresh.Batch.{
  RefreshEntry, is_less, is_more, is_same, has_hash, largest_from, replace_hash, append_entry,
}

-- A hash that is not above another, as `memcmp` has it; hashes have 32 bytes.
abbrev pub AtMost : List ℕ → List ℕ → Type 0
AtMost a b = is_more (memcmp a b) ≡ false

pub AtMost-refl : (a : List ℕ) → AtMost a a
unfolding memcmp
AtMost-refl [] = refl
AtMost-refl (x ∷ a) = ground (arith, AtMost-refl a)

pub AtMost-trans :
    (a b c : List ℕ)
    → length a ≡ length b
    → length b ≡ length c
    → AtMost a b
    → AtMost b c
    → AtMost a c
unfolding memcmp
AtMost-trans [] b c ab bc h k = refl
AtMost-trans (x ∷ a) [] c ab bc h k = absurd (omega (arith, ab))
AtMost-trans (x ∷ a) (y ∷ b) [] ab bc h k = refl
AtMost-trans (x ∷ a) (y ∷ b) (z ∷ c) ab bc h k =
    let ih : AtMost a b → AtMost b c → AtMost a c =
      AtMost-trans a b c (omega (arith, ab)) (omega (arith, bc)) in
    ground (arith, h, k, ih)

pub AtMost-total : (a b : List ℕ) → length a ≡ length b → is_less (memcmp a b) ≡ false → AtMost b a
unfolding memcmp
AtMost-total [] [] e h = refl
AtMost-total [] (y ∷ b) e h = absurd (omega (arith, e))
AtMost-total (x ∷ a) [] e h = refl
AtMost-total (x ∷ a) (y ∷ b) e h = ground (arith, h, AtMost-total a b (omega (arith, e)))

pub AtMost-more : (a b : List ℕ) → length a ≡ length b → is_more (memcmp a b) ≡ true → AtMost b a
unfolding memcmp
AtMost-more [] [] e h = refl
AtMost-more [] (y ∷ b) e h = absurd (omega (arith, e))
AtMost-more (x ∷ a) [] e h = refl
AtMost-more (x ∷ a) (y ∷ b) e h = ground (arith, h, AtMost-more a b (omega (arith, e)))

-- Every hash has 32 bytes; none of a list is above `h`.
abbrev pub Sized : List RefreshEntry → Type 0
Sized = All (λ e. length e.hash ≡ 32)

abbrev pub Under : List ℕ → List RefreshEntry → Type 0
Under h = All (λ e. AtMost e.hash h)

pub Under-trans :
    (a b : List ℕ) (es : List RefreshEntry)
    → length a ≡ 32
    → length b ≡ 32
    → Sized es
    → Under a es
    → AtMost a b
    → Under b es
Under-trans a b [] la lb s u ab = tt
Under-trans a b (e ∷ es) la lb (le, s) (u, us) ab =
    (AtMost-trans e.hash a b (le ∙ sym la) (la ∙ sym lb) u ab, Under-trans a b es la lb s us ab)

module _ (best e : RefreshEntry) (es : List RefreshEntry) where
  largest_new :
      is_more (memcmp e.hash best.hash) ≡ true → largest_from best (e ∷ es) ≡ largest_from e es
  unfolding largest_from
  largest_new m = rw (m, largest_from) refl

  pub largest_old :
      is_more (memcmp e.hash best.hash) ≡ false → largest_from best (e ∷ es) ≡ largest_from best es
  unfolding largest_from
  largest_old m = rw (m, largest_from) refl

abbrev pub IsTop : RefreshEntry → List RefreshEntry → RefreshEntry → Type 0
IsTop best es t = (length t.hash ≡ 32) × AtMost best.hash t.hash × Under t.hash es

-- What the search for the largest finds: its hash has 32 bytes and none of the list is above it.
pub largest_from-Under :
    (best : RefreshEntry) (es : List RefreshEntry)
    → length best.hash ≡ 32
    → Sized es
    → IsTop best es (largest_from best es)
unfolding largest_from
largest_from-Under best [] lb s = (lb, AtMost-refl best.hash, tt)
largest_from-Under best (e ∷ es) lb (le, s) =
    elim (Bool-cases (is_more (memcmp e.hash best.hash))) [
      | inl m ↦
          let (size, top, under) = largest_from-Under e es le s in
          subst (IsTop best (e ∷ es)) (sym (largest_new best e es m)) (
            size,
            AtMost-trans best.hash e.hash _ (lb ∙ sym le) (le ∙ sym size)
                (AtMost-more e.hash best.hash (le ∙ sym lb) m) top,
            (top, under),
          )
      | inr m ↦
          let (size, top, under) = largest_from-Under best es lb s in
          subst (IsTop best (e ∷ es)) (sym (largest_old best e es m)) (
            size,
            top,
            (AtMost-trans e.hash best.hash _ (le ∙ sym lb) (lb ∙ sym size) m top, under),
          )
    ]

pub same_refl : (a : List ℕ) → is_same (memcmp a a) ≡ true
unfolding memcmp
same_refl [] = refl
same_refl (x ∷ a) = ground (arith, same_refl a)

clash : (a b : List ℕ) → b ≡ a → is_same (memcmp a b) ≡ true
clash a b e = rw e (same_refl a)

pub eq_of_same : (a b : List ℕ) → length a ≡ length b → is_same (memcmp a b) ≡ true → a ≡ b
unfolding memcmp
eq_of_same [] [] e h = refl
eq_of_same [] (y ∷ b) e h = absurd (omega (arith, e))
eq_of_same (x ∷ a) [] e h = absurd (omega (arith, e))
eq_of_same (x ∷ a) (y ∷ b) e h = elim (Bool-cases (x == y)) [
  | inr n ↦ absurd (ground (arith, n, h))
  | inl q ↦
      let tail = eq_of_same a b (omega (arith, e)) (ground (arith, q, h)) in
      cc ((==_iff x y).0 q, tail)
]

pub same_sym :
    (a b : List ℕ)
    → length a ≡ length b
    → is_same (memcmp a b) ≡ false
    → is_same (memcmp b a) ≡ false
same_sym a b e h = elim (Bool-cases (is_same (memcmp b a))) [
  | inr n ↦ n
  | inl q ↦ absurd (ground (arith, h, clash a b (eq_of_same b a (sym e) q)))
]

pub largest_from-has_hash :
    (best : RefreshEntry) (es : List RefreshEntry)
    → has_hash (largest_from best es).hash (best ∷ es) ≡ true
unfolding has_hash largest_from
largest_from-has_hash best [] = ground (arith, same_refl best.hash)
largest_from-has_hash best (e ∷ es) = elim (Bool-cases (is_more (memcmp e.hash best.hash))) [
  | inl m ↦
      subst (λ t. has_hash t.hash (best ∷ e ∷ es) ≡ true) (sym (largest_new best e es m))
        (ground (arith, largest_from-has_hash e es))
  | inr m ↦
      subst (λ t. has_hash t.hash (best ∷ e ∷ es) ≡ true) (sym (largest_old best e es m))
        (ground (arith, largest_from-has_hash best es))
]

module _ (top : List ℕ) (e : RefreshEntry) where
  pub replace_hash-Sized :
      (es : List RefreshEntry) → length e.hash ≡ 32 → Sized es → Sized (replace_hash top e es)
  unfolding replace_hash
  replace_hash-Sized [] le s = tt
  replace_hash-Sized (x ∷ es) le (lx, s) = elim (Bool-cases (is_same (memcmp x.hash top))) [
    | inl m ↦ rw (m, replace_hash) (le, s)
    | inr m ↦ rw (m, replace_hash) (lx, replace_hash-Sized es le s)
  ]

  pub replace_hash-Under :
      (h : List ℕ) (es : List RefreshEntry)
      → AtMost e.hash h
      → Under h es
      → Under h (replace_hash top e es)
  unfolding replace_hash
  replace_hash-Under h [] a u = tt
  replace_hash-Under h (x ∷ es) a (ux, u) = elim (Bool-cases (is_same (memcmp x.hash top))) [
    | inl m ↦ rw (m, replace_hash) (a, u)
    | inr m ↦ rw (m, replace_hash) (ux, replace_hash-Under h es a u)
  ]

  pub length-replace_hash : (es : List RefreshEntry) → length (replace_hash top e es) ≡ length es
  unfolding replace_hash
  length-replace_hash [] = refl
  length-replace_hash (x ∷ es) = ground (arith, length-replace_hash es)

  -- The new entry is there, if the old one was.
  pub replace_hash-new :
      (es : List RefreshEntry)
      → length top ≡ 32
      → Sized es
      → has_hash top es ≡ true
      → has_hash e.hash (replace_hash top e es) ≡ true
  unfolding replace_hash has_hash
  replace_hash-new [] lt s h = absurd (ground (arith, h))
  replace_hash-new (x ∷ es) lt (lx, s) h = elim (Bool-cases (is_same (memcmp x.hash top))) [
    | inl m ↦ rw (m, replace_hash, has_hash) (ground (arith, same_refl e.hash))
    | inr m ↦
        let other = same_sym x.hash top (lx ∙ sym lt) m in
        let later = replace_hash-new es lt s (ground (arith, h, other)) in ground (arith, m, later)
  ]

  -- Another hash stays.
  pub replace_hash-kept :
      (h : List ℕ) (es : List RefreshEntry)
      → length h ≡ 32
      → Sized es
      → is_same (memcmp h top) ≡ false
      → has_hash h es ≡ true
      → has_hash h (replace_hash top e es) ≡ true
  unfolding replace_hash has_hash
  replace_hash-kept h [] lh s ne hit = absurd (ground (arith, hit))
  replace_hash-kept h (x ∷ es) lh (lx, s) ne hit = elim (Bool-cases (is_same (memcmp h x.hash))) [
    | inl m ↦
        let eq = eq_of_same h x.hash (lh ∙ sym lx) m in
        let other : is_same (memcmp x.hash top) ≡ false = rw (← eq) ne in ground (arith, m, other)
    | inr m ↦
        let later = replace_hash-kept h es lh s ne (ground (arith, m, hit)) in
        ground (arith, m, hit, later)
  ]

-- An entry at the end.
module _ (e : RefreshEntry) where
  pub append_entry-Sized :
      (es : List RefreshEntry) → length e.hash ≡ 32 → Sized es → Sized (append_entry e es)
  unfolding append_entry
  append_entry-Sized [] le s = (le, tt)
  append_entry-Sized (x ∷ es) le (lx, s) = (lx, append_entry-Sized es le s)

  pub length-append_entry : (es : List RefreshEntry) → length (append_entry e es) ≡ suc (length es)
  unfolding append_entry
  length-append_entry [] = refl
  length-append_entry (x ∷ es) = ap suc (length-append_entry es)

  pub append_entry-new : (es : List RefreshEntry) → has_hash e.hash (append_entry e es) ≡ true
  unfolding append_entry has_hash
  append_entry-new [] = ground (arith, same_refl e.hash)
  append_entry-new (x ∷ es) = ground (arith, append_entry-new es)

  pub append_entry-kept :
      (h : List ℕ) (es : List RefreshEntry)
      → has_hash h es ≡ true
      → has_hash h (append_entry e es) ≡ true
  unfolding append_entry has_hash
  append_entry-kept h [] hit = absurd (ground (arith, hit))
  append_entry-kept h (x ∷ es) hit = ground (arith, hit, append_entry-kept h es)
