-- ===== src/Config/Reload.antt =====
-- A reload keeps the zone of the queue, and the settings are within their limits.
use ngx_cache_purge.Prelude.{
  ℕ, ◌≤◌, ◌<◌, ◌≡◌, Bool, true, false, ◌&&◌, ◌||◌, not, List, [], ◌∷◌, ◌⊎◌, codes, bytes_eq,
  bytes_eq_refl, eq_of_bytes_eq, Option, none, some, ◌==◌, if◌then◌else◌, Bool-cases, Option-cases,
  inl, inr, arith,
}
use ngx_cache_purge.Generation.State.{is_some}
use ngx_cache_purge.Queue.Paths.{Registered}
use ngx_cache_purge.Config.Zone.{
  MainConf, MainValues, OldZone, Sizes, throttle_max, batch_size_max, init_values, find_zone,
  changes_size, zone_size, init_main_conf,
}

-- The limits of the directives.
abbrev pub IsLimited : MainValues → Type 0
IsLimited v =
    (0 < v.queue_size)
    × (0 < v.batch_size)
    × (v.batch_size ≤ batch_size_max)
    × (0 < v.throttle_ms)
    × (v.throttle_ms ≤ throttle_max)

init_values-IsLimited : (c : MainConf) (v : MainValues) → init_values c ≡ some v → IsLimited v
unfolding init_values
init_values-IsLimited c v h = ground (arith, h)

first_inj :
    {v w : MainValues} {y z : Option ℕ}
    → ◌≡◌ {A = Option (MainValues × Option ℕ)} (some (v, y)) (some (w, z))
    → v ≡ w
first_inj h = cc

-- A zone that the cycle before had.
abbrev Keeps : Option OldZone → Option ℕ → Type 0
Keeps none size = Unit
Keeps (some old) size = size ≡ some old.size

-- The zone of the queue among the zones of the cycle before.
abbrev pub IsQueueZone : OldZone → Type 0
IsQueueZone z = (z.is_own ≡ true) × (z.name ≡ codes "cache_purge_queue")

-- The size is that of the first zone of the queue, if there is any.
abbrev pub KeepsSize : List OldZone → Option ℕ → Type 0
KeepsSize [] size = Unit
KeepsSize (z ∷ zones) size =
    IsQueueZone z × (size ≡ some z.size) ⊎ (¬ IsQueueZone z) × KeepsSize zones size

not_both :
    (own : Bool) (name : List ℕ)
    → (own && bytes_eq name (codes "cache_purge_queue")) ≡ false
    → own ≡ true
    → name ≡ codes "cache_purge_queue"
    → ⊥
not_both own name h o n =
    let equal : bytes_eq name (codes "cache_purge_queue") ≡ true =
      rw n (bytes_eq_refl (codes "cache_purge_queue")) in
    ground (arith, h, o, equal)

find_zone-KeepsSize :
    (zones : List OldZone) (size : Option ℕ) → Keeps (find_zone zones) size → KeepsSize zones size
unfolding find_zone
find_zone-KeepsSize [] size h = tt
find_zone-KeepsSize (z ∷ zones) size h =
    elim (Bool-cases (z.is_own && bytes_eq z.name (codes "cache_purge_queue"))) [
      | inl e ↦ inl (
        (ground (arith, e), eq_of_bytes_eq z.name (codes "cache_purge_queue") (ground (arith, e))),
        rw e at h,
      )
      | inr e ↦ inr (
        λ (own, name). not_both z.is_own z.name e own name,
        find_zone-KeepsSize zones size (rw e at h),
      )
    ]

module _ (s : Sizes) where
  kept_size :
      (old : Option OldZone) (n : ℕ) (v w : MainValues) (z : Option ℕ) (room : Bool)
      → if◌then◌else◌ {A = Option (MainValues × Option ℕ)}
          (changes_size old n || not room)
          none
          (some (v, some n))
        ≡ some (w, z)
      → (v ≡ w) × Keeps old z
  kept_size none n v w z true h = (ground (arith, h), tt)
  kept_size none n v w z false h = absurd (grind (arith, h))
  kept_size (some old) n v w z false h = absurd (grind (arith, h))
  kept_size (some old) n v w z true h = elim (Bool-cases (n == old.size)) [
    | inl e ↦ ground (arith, e, h)
    | inr e ↦ absurd (grind (arith, e, h))
  ]

  -- A configuration that is accepted has at least one task, batches of 1 to 64 tasks, and pauses
  -- from 1 ms to a twentieth of the highest number; and where the cycle before had a zone for the
  -- queue (the module's own, of the name cache_purge_queue), there is one, of the size of the first.
  pub init_main_conf-Keeps :
      (room has_namespaces has_status : Bool) (zones : List OldZone) (paths : List Registered)
      (conf : MainConf) (v : MainValues) (z : Option ℕ)
      → init_main_conf s room has_namespaces has_status zones paths conf ≡ some (v, z)
      → IsLimited v × KeepsSize zones z
  unfolding init_main_conf
  init_main_conf-Keeps room has_namespaces has_status zones paths conf v z h =
      elim (Option-cases (init_values conf)) [
        | inl nil ↦ absurd (grind (arith, rw nil at h))
        | inr (w, found) ↦
            let limits = init_values-IsLimited conf w found in
            let test =
              not w.background_purge
              && not has_namespaces
              && not (is_some (find_zone zones))
              && not has_status in
            elim (Bool-cases test) [
              | inl idle ↦ elim (Option-cases (find_zone zones)) [
                | inl nil ↦
                    let same : w ≡ v = first_inj (rw (found, idle) at h) in
                    (rw (← same) limits, find_zone-KeepsSize zones z (rw nil tt))
                | inr (old, there) ↦ absurd (ground (arith, idle, there))
              ]
              | inr busy ↦ elim (Option-cases (zone_size s w.queue_size paths)) [
                | inl nil ↦ absurd (grind (arith, rw (found, busy, nil) at h))
                | inr (n, size) ↦
                    let (same, keeps) =
                      kept_size (find_zone zones) n w v z room (rw (found, busy, size) at h) in
                    (rw (← same) limits, find_zone-KeepsSize zones z keeps)
              ]
            ]
      ]
