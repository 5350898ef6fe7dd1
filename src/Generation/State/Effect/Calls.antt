-- ===== src/Generation/State/Effect/Calls.antt =====
-- The outcome of one call of `ngx_http_cache_purge_generation_invalidate`.

use ngx_cache_purge.Prelude.{
  ℕ, ◌+◌, ◌-◌, ◌<◌, ◌≡◌, refl, ap, ◌∙◌, ◌⊎◌, inl, inr, ◌≢◌, Bool, true, false, ◌&&◌, ◌||◌, not,
  List, Option, ◌==◌, if◌then◌else◌, length, is_empty, u64, arith, Bool-cases, Option-cases,
}
use ngx_cache_purge.Ngx.{Text, Slab, ok}
use ngx_cache_purge.Generation.Rule.{place}
use ngx_cache_purge.Generation.Rule.Bounds.{Bounded-mono, search_rules-le}
use ngx_cache_purge.Generation.Rule.Select.{selects, Grows-Bounded, search_rules-Grows, place-Grows}
use ngx_cache_purge.Generation.State.{
  Generation, reset, lookup, ends_in_star, drop_last, is_some, Invalidated, collect, add_rule,
  publish, invalidate, is_expected,
}
use ngx_cache_purge.Generation.State.Effect.{
  IsValid, search_rules-top, Publishes, reset-Publishes, covers, covers-selects, lookup-le,
  le-lookup,
}

module _ {S : Type 0} (text : Text) (slab : Slab S) where
  add_rule-Publishes :
      (prefix : Bool) (selector : List ℕ) (state : Generation) (pool : S)
      → IsValid state
      → is_empty selector ≡ false
      → Publishes text
          (selects text prefix selector)
          (lookup text state)
          state.serial
          (add_rule text slab prefix selector state pool)
  unfolding add_rule lookup
  add_rule-Publishes true selector state pool h ne =
      let p =
        place text slab true state.serial selector state.prefix state.allocated state.tail pool in
      elim (Option-cases p.rule) [
        | inl e ↦
            rw (e, add_rule)
              (reset-Publishes text _ _ (record state { allocated = p.allocated; tail = p.tail })
                p.pool h.serial_lt)
        | inr (r, e) ↦
            let grown =
              place-Grows text slab true state.serial selector state.prefix state.allocated
                state.tail pool r e in
            let effect = search_rules-Grows text true state.serial grown h.prefix_le ne in
            let exact_le = λ (q : List ℕ).
              search_rules-le text false state.serial state.exact q state.baseline h.exact_le
                h.baseline_le in
            rw (e, add_rule)
              (record {
                ok_lem = refl;
                serial_lem = refl;
                valid = record {
                  baseline_le = h.baseline_le;
                  exact_le = h.exact_le;
                  prefix_le = Grows-Bounded text true state.serial grown h.prefix_le;
                  serial_lt = h.serial_lt;
                };
                hit = λ q c. effect q _ (exact_le q) ∙ rw c;
                miss = λ q c. inl (effect q _ (exact_le q) ∙ rw c);
              })
      ]
  add_rule-Publishes false selector state pool h ne =
      let p =
        place text slab false state.serial selector state.exact state.allocated state.tail pool in
      elim (Option-cases p.rule) [
        | inl e ↦
            rw (e, add_rule)
              (reset-Publishes text _ _ (record state { allocated = p.allocated; tail = p.tail })
                p.pool h.serial_lt)
        | inr (r, e) ↦
            let grown =
              place-Grows text slab false state.serial selector state.exact state.allocated
                state.tail pool r e in
            let effect = λ (q : List ℕ).
              search_rules-Grows text false state.serial grown h.exact_le ne q state.baseline
                h.baseline_le in
            let top =
              λ (q : List ℕ). search_rules-top text true state.prefix q state.serial h.prefix_le in
            rw (e, add_rule)
              (record {
                ok_lem = refl;
                serial_lem = refl;
                valid = record {
                  baseline_le = h.baseline_le;
                  exact_le = Grows-Bounded text false state.serial grown h.exact_le;
                  prefix_le = h.prefix_le;
                  serial_lt = h.serial_lt;
                };
                hit = λ q c. rw (effect q, c) (top q);
                miss = λ q c. inl (rw (effect q, c));
              })
      ]

  publish-Publishes :
      (key : List ℕ) (all prefix : Bool) (state : Generation) (pool : S)
      → IsValid state
      → state.serial + 1 < u64
      → Publishes text
          (covers text all key prefix)
          (lookup text state)
          (state.serial + 1)
          (publish text slab key all prefix state pool)
  unfolding publish covers lookup
  publish-Publishes key all prefix state pool h lt =
      let selector = if prefix then drop_last key else key in
      let (garbage, pool') = collect text slab 64 state.garbage pool in
      let state' = record state { garbage = garbage; serial = state.serial + 1 } in
      let h' : IsValid state' = record {
        baseline_le = omega (arith, h.baseline_le);
        exact_le = Bounded-mono state.exact (omega arith) h.exact_le;
        prefix_le = Bounded-mono state.prefix (omega arith) h.prefix_le;
        serial_lt = lt;
      } in
      elim (Bool-cases (all || length selector == 0)) [
        | inl e ↦ rw e (reset-Publishes text _ _ state' pool' lt)
        | inr e ↦
            rw (e, covers-selects text all key prefix e)
              (add_rule-Publishes prefix selector state' pool' h' (ground arith))
      ]

  -- A call is refused and changes nothing, or publishes.
  invalidate_cases :
      (locked : Bool) (name key : List ℕ) (all : Bool) (expected : Option (List ℕ))
      (state : Generation) (pool : S)
      → let out = invalidate text slab locked name key all expected state pool in
        ((out.rc ≢ ok) × (out.state ≡ state) × (out.pool ≡ pool))
        ⊎ ((state.serial ≢ u64 - 1)
            × (is_expected text name state key expected ≡ true)
            × (out
                ≡ publish text slab key all
                    (not (is_some expected) && ends_in_star key)
                    state
                    pool))
  unfolding invalidate
  invalidate_cases locked name key all expected state pool = ground arith

  -- A call that succeeds publishes a new generation.
  pub invalidate-Publishes :
      (locked : Bool) (name key : List ℕ) (all : Bool) (expected : Option (List ℕ))
      (state : Generation) (pool : S)
      → IsValid state
      → (invalidate text slab locked name key all expected state pool).rc ≡ ok
      → Publishes text
          (covers text all key (not (is_some expected) && ends_in_star key))
          (lookup text state)
          (state.serial + 1)
          (invalidate text slab locked name key all expected state pool)
  invalidate-Publishes locked name key all expected state pool h e =
      elim (invalidate_cases locked name key all expected state pool) [
        | inl refused ↦ absurd (refused.0 e)
        | inr (room, _, same) ↦
            rw same (publish-Publishes key all _ state pool h (omega (arith, h.serial_lt)))
      ]

  -- A call that fails changes nothing.
  pub invalidate_fails :
      (locked : Bool) (name key : List ℕ) (all : Bool) (expected : Option (List ℕ))
      (state : Generation) (pool : S)
      → IsValid state
      → (invalidate text slab locked name key all expected state pool).rc ≢ ok
      → let out = invalidate text slab locked name key all expected state pool in
        (out.state ≡ state) × (out.pool ≡ pool)
  invalidate_fails locked name key all expected state pool h e =
      elim (invalidate_cases locked name key all expected state pool) [
        | inl refused ↦ (refused.1, refused.2)
        | inr (room, _, same) ↦ absurd (
            e (
              ap (λ (o : Invalidated S). o.rc) same
              ∙ (publish-Publishes key all _ state pool h (omega (arith, h.serial_lt))).ok_lem))
      ]

  -- The epoch is set when the namespace is made, and never again.
  pub epoch-invalidate :
      (locked : Bool) (name key : List ℕ) (all : Bool) (expected : Option (List ℕ))
      (state : Generation) (pool : S)
      → (invalidate text slab locked name key all expected state pool).state.epoch ≡ state.epoch
  unfolding invalidate publish add_rule reset
  epoch-invalidate locked name key all expected state pool = ground arith

  -- After a successful call every key that it covers has the new serial for its generation, which
  -- is above the generation of every key before.
  pub lookup-invalidate_hit :
      (locked : Bool) (name key : List ℕ) (all : Bool) (expected : Option (List ℕ))
      (state : Generation) (pool : S) (q : List ℕ)
      → IsValid state
      → (invalidate text slab locked name key all expected state pool).rc ≡ ok
      → covers text all key (not (is_some expected) && ends_in_star key) q ≡ true
      → let out = invalidate text slab locked name key all expected state pool in
        (lookup text out.state q ≡ state.serial + 1)
        × (lookup text state q < lookup text out.state q)
  lookup-invalidate_hit locked name key all expected state pool q h e hit =
      let p = invalidate-Publishes locked name key all expected state pool h e in
      (p.hit q hit, omega (arith, p.hit q hit, lookup-le text state q h))

  -- After a successful call a key that it does not cover keeps its generation, or else the whole
  -- namespace was reset: the baseline has become the new serial, and so has the key's generation.
  pub lookup-invalidate_miss :
      (locked : Bool) (name key : List ℕ) (all : Bool) (expected : Option (List ℕ))
      (state : Generation) (pool : S) (q : List ℕ)
      → IsValid state
      → (invalidate text slab locked name key all expected state pool).rc ≡ ok
      → covers text all key (not (is_some expected) && ends_in_star key) q ≡ false
      → let out = invalidate text slab locked name key all expected state pool in
        (lookup text out.state q ≡ lookup text state q)
        ⊎ ((out.state.baseline ≡ state.serial + 1) × (lookup text out.state q ≡ state.serial + 1))
  lookup-invalidate_miss locked name key all expected state pool q h e miss =
      let out = invalidate text slab locked name key all expected state pool in
      let p = invalidate-Publishes locked name key all expected state pool h e in
      elim (p.miss q miss) [
        | inl same ↦ inl same
        | inr reset' ↦ inr (
          reset',
          omega (
            arith,
            reset',
            p.serial_lem,
            lookup-le text out.state q p.valid,
            le-lookup text out.state q,
          ),
        )
      ]
