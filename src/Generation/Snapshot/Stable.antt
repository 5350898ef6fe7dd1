-- ===== src/Generation/Snapshot/Stable.antt =====
-- A request sees one encoded key for a logical key of a namespace, whatever happens in between.
use mathlib.Core.Path.{subst}
use ngx_cache_purge.Prelude.{
  ℕ, ◌≤◌, ◌≡◌, refl, sym, ◌∙◌, ap, true, false, ◌&&◌, List, [], ◌∷◌, Option, none, some, ltb, ◌==◌,
  length, bytes_eq, bytes_eq_refl, eq_of_bytes_eq, Bool-cases, Option-cases, inl, inr, arith,
}
use ngx_cache_purge.Ngx.{Text}
use ngx_cache_purge.Generation.State.{logical_key_max}
use ngx_cache_purge.Generation.Snapshot.{
  Snapshot, RequestKeys, KeyResult, keys, KeyCall, find_snapshot, request_keys, take_snapshot,
  key_of_value, generation_key,
}

-- The record of a request shows the two keys for a namespace.
pub record Shows (ns : ℕ) (logical encoded : List ℕ) (found : Option RequestKeys) : Type 0 where
  pub ctx : RequestKeys
  pub found_lem : found ≡ some ctx
  pub idle_lem : ctx.evaluating ≡ false
  pub snapshot_lem :
      find_snapshot ns logical ctx.snapshots
      ≡ some (record { ns = ns; logical = logical; encoded = encoded })

hit_of_find_snapshot :
    (ns : ℕ) (key : List ℕ) (ss : List Snapshot) (s : Snapshot)
    → find_snapshot ns key ss ≡ some s
    → (s.ns ≡ ns) × (s.logical ≡ key)
unfolding find_snapshot
hit_of_find_snapshot ns key [] s h = grind arith
hit_of_find_snapshot ns key (x ∷ ss) s h =
    grind (arith, hit_of_find_snapshot ns key ss s, eq_of_bytes_eq)

-- A new snapshot, for a key that had none, is found; another key keeps what it finds.
find_snapshot_new :
    (s : Snapshot) (ss : List Snapshot) → find_snapshot s.ns s.logical (s ∷ ss) ≡ some s
unfolding find_snapshot
find_snapshot_new s ss = ground (arith, bytes_eq_refl s.logical)

find_snapshot_kept :
    (ns : ℕ) (key : List ℕ) (s : Snapshot) (ss : List Snapshot) (hit : Snapshot)
    → find_snapshot ns key ss ≡ some hit
    → find_snapshot s.ns s.logical ss ≡ none
    → find_snapshot ns key (s ∷ ss) ≡ some hit
unfolding find_snapshot
find_snapshot_kept ns key s ss hit h miss =
    elim (Bool-cases (s.ns == ns && bytes_eq s.logical key)) [
      | inl e ↦
          let en : s.ns ≡ ns = ground (arith, e) in
          let ek : s.logical ≡ key = eq_of_bytes_eq s.logical key (ground (arith, e)) in
          let clash : none ≡ some hit = sym miss ∙ rw (en, ek) h in absurd (ground (arith, clash))
      | inr e ↦ rw e h
    ]

made :
    (s : Snapshot) (n : ℕ) (l e : List ℕ)
    → s.ns ≡ n
    → s.logical ≡ l
    → s.encoded ≡ e
    → s ≡ record { ns = n; logical = l; encoded = e }
made s n l e hn hl he = cc

parts :
    (a b l e : List ℕ) (c c' : RequestKeys)
    → ◌≡◌ {A = KeyResult × RequestKeys} (keys a b, c) (keys l e, c')
    → (a ≡ l) × (b ≡ e) × (c ≡ c')
parts a b l e c c' h = (grind arith, grind arith, grind arith)

module _ (text : Text) where
  key_of_value_hit :
      (call : KeyCall) (key : List ℕ) (ctx : RequestKeys) (s : Snapshot)
      → ltb logical_key_max (length key) ≡ false
      → find_snapshot call.ns key ctx.snapshots ≡ some s
      → key_of_value text call key ctx ≡ (keys s.logical s.encoded, ctx)
  unfolding key_of_value
  key_of_value_hit call key ctx s short e = rw (short, e) refl

  key_of_value_new :
      (call : KeyCall) (key : List ℕ) (ctx : RequestKeys)
      → ltb logical_key_max (length key) ≡ false
      → find_snapshot call.ns key ctx.snapshots ≡ none
      → (call.snapshot_room && call.encoded_room) ≡ true
      → key_of_value text call key ctx ≡ (
        keys key (take_snapshot text call key).encoded,
        record ctx { snapshots = take_snapshot text call key ∷ ctx.snapshots },
      )
  unfolding key_of_value take_snapshot
  key_of_value_new call key ctx short e room = rw (short, e, room) refl

  key_of_value-Shows :
      (call : KeyCall) (key logical encoded : List ℕ) (ctx ctx' : RequestKeys)
      → ctx.evaluating ≡ false
      → key_of_value text call key ctx ≡ (keys logical encoded, ctx')
      → (key ≡ logical) × (length key ≤ logical_key_max) × Shows call.ns logical encoded (some ctx')
  unfolding key_of_value take_snapshot
  key_of_value-Shows call key logical encoded ctx ctx' idle h =
      elim (Bool-cases (ltb logical_key_max (length key))) [
        | inl long ↦ absurd (ground (arith, long, h))
        | inr short ↦ elim (Option-cases (find_snapshot call.ns key ctx.snapshots)) [
          | inr (s, e) ↦
              let (en, ek) = hit_of_find_snapshot call.ns key ctx.snapshots s e in
              let (pl, pe, pc) =
                parts s.logical s.encoded logical encoded ctx ctx'
                  (sym (key_of_value_hit call key ctx s short e) ∙ h) in
              (
                sym ek ∙ pl,
                ground (arith, short),
                record {
                  ctx = ctx';
                  found_lem = refl;
                  idle_lem = rw (← pc) idle;
                  snapshot_lem = rw (← pc) (
                      ap (λ k. find_snapshot call.ns k ctx.snapshots) (sym pl ∙ ek)
                      ∙ e
                      ∙ ap some (made s call.ns logical encoded en pl pe));
                },
              )
          | inl e ↦ elim (Bool-cases (call.snapshot_room && call.encoded_room)) [
            | inl room ↦
                let new = take_snapshot text call key in
                let (pl, pe, pc) =
                  parts key new.encoded logical encoded _ ctx'
                    (sym (key_of_value_new call key ctx short e room) ∙ h) in
                (
                  pl,
                  ground (arith, short),
                  record {
                    ctx = ctx';
                    found_lem = refl;
                    idle_lem = rw (← pc) idle;
                    snapshot_lem = rw (← pc, ← pl, ← pe) (find_snapshot_new new ctx.snapshots);
                  },
                )
            | inr full ↦ absurd (ground (arith, short, e, h, full))
          ]
        ]
      ]

  key_of_value-kept :
      (call : KeyCall) (key : List ℕ) (ns : ℕ) (l e : List ℕ) (ctx : RequestKeys)
      → ctx.evaluating ≡ false
      → find_snapshot ns l ctx.snapshots ≡ some (record { ns = ns; logical = l; encoded = e })
      → ((key_of_value text call key ctx).1.evaluating ≡ false)
        × (find_snapshot ns l (key_of_value text call key ctx).1.snapshots
            ≡ some (record { ns = ns; logical = l; encoded = e }))
  unfolding key_of_value take_snapshot
  key_of_value-kept call key ns l e ctx idle h =
      elim (Option-cases (find_snapshot call.ns key ctx.snapshots)) [
        | inr (s, old) ↦ (ground (arith, old, idle), ground (arith, old, h))
        | inl miss ↦
            let kept =
              find_snapshot_kept ns l (take_snapshot text call key) ctx.snapshots _ h miss in
            (ground (arith, miss, idle), ground (arith, miss, h, kept))
      ]

  -- What a call leaves of the keys that a request has seen.
  generation_key-kept :
      (call : KeyCall) (ns : ℕ) (logical encoded : List ℕ) (found : Option RequestKeys)
      → Shows ns logical encoded found
      → Shows ns logical encoded (generation_key text call found).1
  unfolding generation_key request_keys
  generation_key-kept call ns logical encoded none h = absurd (ground (arith, h.found_lem))
  generation_key-kept call ns logical encoded (some ctx) h =
      let same : ctx ≡ h.ctx = ground (arith, h.found_lem) in
      let idle : ctx.evaluating ≡ false = rw same h.idle_lem in
      let seen : find_snapshot ns logical ctx.snapshots
          ≡ some (record { ns = ns; logical = logical; encoded = encoded }) =
        rw same h.snapshot_lem in
      elim (Option-cases call.value) [
        | inl e ↦ rw (idle, e) h
        | inr (key, e) ↦
            let (idle', seen') = key_of_value-kept call key ns logical encoded ctx idle seen in
            rw (idle, e)
              (record {
                ctx = (key_of_value text call key ctx).1;
                found_lem = refl;
                idle_lem = idle';
                snapshot_lem = seen';
              })
      ]

  pub generation_key-Shows :
      (call : KeyCall) (logical encoded : List ℕ) (found found' : Option RequestKeys)
      → generation_key text call found ≡ (keys logical encoded, found')
      → (call.value ≡ some logical)
        × (length logical ≤ logical_key_max)
        × Shows call.ns logical encoded found'
  unfolding generation_key
  generation_key-Shows call logical encoded found found' h =
      elim (Option-cases (request_keys call.cleanup_room found)) [
        | inl e ↦ absurd (ground (arith, e, h))
        | inr (ctx, e) ↦ elim (Bool-cases ctx.evaluating) [
          | inl busy ↦ absurd (ground (arith, e, busy, h))
          | inr idle ↦ elim (Option-cases call.value) [
            | inl v ↦ absurd (ground (arith, e, idle, v, h))
            | inr (key, v) ↦
                let out = key_of_value text call key ctx in
                let step : generation_key text call found ≡ (out.0, some out.1) =
                  rw (e, generation_key) (simp (idle, v)) in
                let result = ap (λ x. x.0) (sym step ∙ h) in
                let (kl, size, shown) =
                  key_of_value-Shows call key logical encoded ctx out.1 idle
                    (ap (λ x. (x, out.1)) result) in
                (
                  v ∙ ap some kl,
                  rw (← kl) size,
                  subst (Shows call.ns logical encoded) (ap (λ x. x.1) (sym step ∙ h)) shown,
                )
          ]
        ]
      ]

  generation_key_again :
      (call : KeyCall) (logical encoded : List ℕ) (found : Option RequestKeys)
      → call.value ≡ some logical
      → length logical ≤ logical_key_max
      → Shows call.ns logical encoded found
      → generation_key text call found ≡ (keys logical encoded, found)
  unfolding generation_key request_keys
  generation_key_again call logical encoded found v size h =
      let short : ltb logical_key_max (length logical) ≡ false = ground arith in
      simp (h.found_lem, h.idle_lem, v, key_of_value_hit call logical h.ctx _ short h.snapshot_lem)

  -- The record of a request after any number of calls.
  unfoldable pub run : List KeyCall → Option RequestKeys → Option RequestKeys
  run [] found = found
  run (call ∷ calls) found = run calls (generation_key text call found).1

  run-kept :
      (calls : List KeyCall) (ns : ℕ) (logical encoded : List ℕ) (found : Option RequestKeys)
      → Shows ns logical encoded found
      → Shows ns logical encoded (run calls found)
  unfolding run
  run-kept [] ns logical encoded found h = h
  run-kept (call ∷ calls) ns logical encoded found h =
      run-kept calls ns logical encoded _ (generation_key-kept call ns logical encoded found h)

  -- Once a call has given a request the two keys of a namespace, a later call for that namespace
  -- whose expression has the same value gives the same two keys, after any calls in between and
  -- whatever the state of the namespace and the memory are then.
  pub generation_key_stable :
      (first later : KeyCall) (calls : List KeyCall) (logical encoded : List ℕ)
      → (found seen : Option RequestKeys)
      → generation_key text first found ≡ (keys logical encoded, seen)
      → later.ns ≡ first.ns
      → later.value ≡ first.value
      → generation_key text later (run calls seen) ≡ (keys logical encoded, run calls seen)
  generation_key_stable first later calls logical encoded found seen h ns value =
      let (v, size, shown) = generation_key-Shows first logical encoded found seen h in
      generation_key_again later logical encoded (run calls seen) (value ∙ v) size
        (rw ns (run-kept calls first.ns logical encoded seen shown))
