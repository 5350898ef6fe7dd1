-- ===== src/Generation/State/Effect.antt =====
-- What one invalidation does to the generation of every key.
pub mod Calls
use mathlib.Core.Path.{fun_ext}
use ngx_cache_purge.Prelude.{
  ℕ, ◌+◌, ◌-◌, ◌≤◌, ◌<◌, ◌≡◌, refl, ap, ◌∙◌, ◌⊎◌, inl, inr, ◌≢◌, Bool, true, false, ◌&&◌, ◌||◌, not,
  List, Option, ◌==◌, if◌then◌else◌, length, is_empty, u64, arith, Bool-cases, Option-cases,
}
use ngx_cache_purge.Ngx.{Rc-discrete, Text, Slab, Rc, ok}
use ngx_cache_purge.Generation.Rule.{null, Rule, search_rules, place}
use ngx_cache_purge.Generation.Rule.Bounds.{Bounded, Bounded-mono, search_rules-le, le-search_rules}
use ngx_cache_purge.Generation.Rule.Select.{
  selects, Grows-Bounded, search_rules-Grows, search_rules-null, place-Grows,
}
use ngx_cache_purge.Generation.State.{
  is_null, view, Generation, reset, lookup, ends_in_star, drop_last, is_some, Invalidated, collect,
  add_rule, publish, invalidate, is_expected,
}

-- No rule, and not the baseline, is newer than the serial, and the serial is a 64-bit number.
pub record IsValid (state : Generation) : Type 0 where
  pub baseline_le : state.baseline ≤ state.serial
  pub exact_le : Bounded state.serial state.exact
  pub prefix_le : Bounded state.serial state.prefix
  pub serial_lt : state.serial < u64

pub rc_cases : (rc : Rc) → (rc ≡ ok) ⊎ (rc ≢ ok)
rc_cases rc = elim (Rc-discrete rc ok) [ yes e ↦ inl e | no n ↦ inr n ]

pub null_of_is_null : (r : Rule) → is_null r ≡ true → r ≡ null
null_of_is_null null h = refl
null_of_is_null (Rule.node a b g child sibling) h = cc

module _ (text : Text) where
  -- The keys that a call is about: all of them, those that begin with a selector that ends in a
  -- star, or the one key itself. Without anything left to compare, all of them again.
  unfoldable pub covers : Bool → List ℕ → Bool → List ℕ → Bool
  covers all key prefix q =
      let selector = if prefix then drop_last key else key in
      all || length selector == 0 || selects text prefix selector q

  pub covers-selects :
      (all : Bool) (key : List ℕ) (prefix : Bool)
      → (all || length (if prefix then drop_last key else key) == 0) ≡ false
      → covers all key prefix ≡ selects text prefix (if prefix then drop_last key else key)
  unfolding covers
  covers-selects all key prefix e = fun_ext λ q. ground arith

  pub lookup-le :
      (state : Generation) (q : List ℕ) → IsValid state → lookup text state q ≤ state.serial
  unfolding lookup
  lookup-le state q h =
      search_rules-le text true state.serial state.prefix q _ h.prefix_le
        (search_rules-le text false state.serial state.exact q _ h.exact_le h.baseline_le)

  pub le-lookup : (state : Generation) (q : List ℕ) → state.baseline ≤ lookup text state q
  unfolding lookup
  le-lookup state q = omega (
    arith,
    le-search_rules text false state.exact q state.baseline,
    le-search_rules text true state.prefix q (search_rules text false state.exact q state.baseline),
  )

  -- Without rules every key has the baseline.
  pub lookup_no_rules :
      (state : Generation) (q : List ℕ)
      → (view state).rules ≡ false
      → lookup text state q ≡ state.baseline
  unfolding lookup view
  lookup_no_rules state q h = simp (
    null_of_is_null state.prefix (ground arith),
    null_of_is_null state.exact (ground arith),
    search_rules-null,
  )

  pub lookup-reset : (state : Generation) (q : List ℕ) → lookup text (reset state) q ≡ state.serial
  unfolding lookup reset
  lookup-reset state q = simp (search_rules-null)

pub reset-IsValid : (state : Generation) → state.serial < u64 → IsValid (reset state)
unfolding reset
reset-IsValid state h = record {
  baseline_le = omega arith;
  exact_le = tt;
  prefix_le = tt;
  serial_lt = h;
}

pub reset_serial : (state : Generation) → (reset state).serial ≡ state.serial
unfolding reset
reset_serial state = refl

pub reset_baseline : (state : Generation) → (reset state).baseline ≡ state.serial
unfolding reset
reset_baseline state = refl

-- The search of a trie that starts from the bound of its rules stays there.
pub search_rules-top :
    (text : Text) (prefix : Bool) (r : Rule) (q : List ℕ) (v : ℕ)
    → Bounded v r
    → search_rules text prefix r q v ≡ v
search_rules-top text prefix r q v h =
    omega (
      arith,
      search_rules-le text prefix v r q v h (omega arith),
      le-search_rules text prefix r q v,
    )

-- What holds of the outcome of a call that was to bring the serial to `v`: `old` are the
-- generations before it, and `covered` tells the keys that it is about.
pub record Publishes {S : Type 0} (text : Text) (covered : List ℕ → Bool) (old : List ℕ → ℕ) (v : ℕ)
    (out : Invalidated S) : Type 0 where
  pub ok_lem : out.rc ≡ ok
  pub serial_lem : out.state.serial ≡ v
  pub valid : IsValid out.state
  pub hit : (q : List ℕ) → covered q ≡ true → lookup text out.state q ≡ v
  pub miss :
      (q : List ℕ)
      → covered q ≡ false
      → (lookup text out.state q ≡ old q) ⊎ (out.state.baseline ≡ v)

-- A namespace that was reset has every key at its serial.
pub reset-Publishes :
    {S : Type 0} (text : Text) (covered : List ℕ → Bool) (old : List ℕ → ℕ) (state : Generation)
    (pool : S)
    → state.serial < u64
    → Publishes text covered old state.serial (record { rc = ok; state = reset state; pool = pool })
reset-Publishes text covered old state pool h = record {
  ok_lem = refl;
  serial_lem = reset_serial state;
  valid = reset-IsValid state h;
  hit = λ q _. lookup-reset text state q;
  miss = λ q _. inr (reset_baseline state);
}
