-- ===== src/Generation/State/Stale.antt =====
-- Which entries the cleanup of a namespace may delete, and which a request may still find.
use ngx_cache_purge.Prelude.{
  ℕ, ◌≤◌, ◌≡◌, refl, ap, ◌∙◌, inl, inr, Bool, true, false, ◌&&◌, ◌||◌, not, List, [], ◌∷◌, Option,
  some, ltb, if◌then◌else◌, bytes_eq, arith, Bool-cases, Option-cases,
}
use ngx_cache_purge.Ngx.{Text, Slab, ok, declined}
use ngx_cache_purge.Generation.Key.{Decoded, decode}
use ngx_cache_purge.Generation.State.{
  Generation, view, lookup, ends_in_star, is_some, invalidate, stale, current, is_current,
}
use ngx_cache_purge.Generation.State.Effect.{
  IsValid, covers, lookup-le, le-lookup, lookup_no_rules, rc_cases,
}
use ngx_cache_purge.Generation.State.Effect.Calls.{
  invalidate-Publishes, invalidate_fails, epoch-invalidate,
}

-- A call of `ngx_http_cache_purge_generation_invalidate` and whether it finds the lock free.
pub record Call : Type 0 where
  pub locked : Bool
  pub key : List ℕ
  pub all : Bool
  pub expected : Option (List ℕ)

module _ {S : Type 0} (text : Text) (slab : Slab S) (name : List ℕ) where
  abbrev pub step : Call → Generation × S → Generation × S
  step c (state, pool) =
      let out = invalidate text slab c.locked name c.key c.all c.expected state pool in
      (out.state, out.pool)

  -- Any history of calls, by any number of workers, is a sequence: each holds the namespace's lock.
  unfoldable pub run : List Call → Generation × S → Generation × S
  run [] s = s
  run (c ∷ cs) s = run cs (step c s)

  abbrev pub is_prefix : Call → Bool
  is_prefix c = not (is_some c.expected) && ends_in_star c.key

  step-IsValid : (c : Call) (s : Generation × S) → IsValid s.0 → IsValid (step c s).0
  step-IsValid c (state, pool) h =
      elim (rc_cases (invalidate text slab c.locked name c.key c.all c.expected state pool).rc) [
        | inl e ↦
            (invalidate-Publishes text slab c.locked name c.key c.all c.expected state pool h
              e).valid
        | inr e ↦
            rw ((invalidate_fails text slab c.locked name c.key c.all c.expected state pool h e).0)
              h
      ]

  -- No call lowers the generation of any key.
  step_mono :
      (c : Call) (s : Generation × S) (q : List ℕ)
      → IsValid s.0
      → lookup text s.0 q ≤ lookup text (step c s).0 q
  step_mono c (state, pool) q h =
      elim (rc_cases (invalidate text slab c.locked name c.key c.all c.expected state pool).rc) [
        | inl e ↦
            let out = invalidate text slab c.locked name c.key c.all c.expected state pool in
            let p =
              invalidate-Publishes text slab c.locked name c.key c.all c.expected state pool h e in
            let below = lookup-le text state q h in
            let above = le-lookup text out.state q in
            elim (Bool-cases (covers text c.all c.key (is_prefix c) q)) [
              | inl hit ↦ omega (arith, p.hit q hit)
              | inr miss ↦ elim (p.miss q miss) [
                | inl same ↦ omega (arith, same)
                | inr reset ↦ omega (arith, reset)
              ]
            ]
        | inr e ↦ omega (
          arith,
          ap (λ (g : Generation). lookup text g q)
              (invalidate_fails text slab c.locked name c.key c.all c.expected state pool h e).0,
        )
      ]

  -- The invariant of a namespace holds after any history of invalidations.
  pub run-IsValid : (cs : List Call) (s : Generation × S) → IsValid s.0 → IsValid (run cs s).0
  unfolding run
  run-IsValid [] s h = h
  run-IsValid (c ∷ cs) s h = run-IsValid cs (step c s) (step-IsValid c s h)

  run_mono :
      (cs : List Call) (s : Generation × S) (q : List ℕ)
      → IsValid s.0
      → lookup text s.0 q ≤ lookup text (run cs s).0 q
  unfolding run
  run_mono [] s q h = omega arith
  run_mono (c ∷ cs) s q h =
      omega (arith, step_mono c s q h, run_mono cs (step c s) q (step-IsValid c s h))

  pub epoch-run : (cs : List Call) (s : Generation × S) → (run cs s).0.epoch ≡ s.0.epoch
  unfolding run
  epoch-run [] s = refl
  epoch-run (c ∷ cs) s =
      epoch-run cs (step c s)
      ∙ epoch-invalidate text slab c.locked name c.key c.all c.expected s.0 s.1

  -- What is stale once stays stale, whatever is invalidated later: a late write of an old
  -- generation is never found again.
  pub stale-run :
      (cs : List Call) (s : Generation × S) (entry : List ℕ)
      → IsValid s.0
      → stale text name s.0 entry ≡ ok
      → stale text name (run cs s).0 entry ≡ ok
  unfolding stale
  stale-run cs s entry h e = elim (Option-cases (decode text name entry)) [
    | inl none' ↦ ground arith
    | inr (d, decoded) ↦ ground (arith, run_mono cs s d.logical h, epoch-run cs s)
  ]

  -- A successful call makes every entry of a generation up to then stale that it covers.
  pub stale-invalidate :
      (c : Call) (state : Generation) (pool : S) (entry : List ℕ) (d : Decoded)
      → IsValid state
      → (invalidate text slab c.locked name c.key c.all c.expected state pool).rc ≡ ok
      → decode text name entry ≡ some d
      → d.generation ≤ state.serial
      → covers text c.all c.key (is_prefix c) d.logical ≡ true
      → let after = (invalidate text slab c.locked name c.key c.all c.expected state pool).state in
        (stale text name after entry ≡ ok) × (current text name after entry ≡ declined)
  unfolding stale current is_current
  stale-invalidate c state pool entry d h e decoded old hit =
      let p = invalidate-Publishes text slab c.locked name c.key c.all c.expected state pool h e in
      ground (arith, p.hit d.logical hit)

module _ (text : Text) (name : List ℕ) where
  -- An entry is never both.
  pub not-stale_of_current :
      (state : Generation) (entry : List ℕ)
      → current text name state entry ≡ ok
      → stale text name state entry ≡ declined
  unfolding stale current is_current
  not-stale_of_current state entry e = ground arith

  -- Where a status request reports no rules, a scanner that compares the epoch and the baseline of
  -- the report decides about each file as the module does.
  pub stale-view :
      (state : Generation) (entry : List ℕ) (d : Decoded)
      → (view state).rules ≡ false
      → decode text name entry ≡ some d
      → stale text name state entry ≡ (
          if not (bytes_eq d.epoch (view state).epoch) || ltb d.generation (view state).baseline
          then ok
          else declined)
  unfolding stale view
  stale-view state entry d h decoded =
      rw (decoded, stale, lookup_no_rules text state d.logical h) refl

  -- With rules the report still errs on one side only: what the scanner finds stale is stale.
  pub stale_of_view :
      (state : Generation) (entry : List ℕ) (d : Decoded)
      → decode text name entry ≡ some d
      → (not (bytes_eq d.epoch (view state).epoch) || ltb d.generation (view state).baseline) ≡ true
      → stale text name state entry ≡ ok
  unfolding stale view
  stale_of_view state entry d decoded h = ground (arith, le-lookup text state d.logical)
