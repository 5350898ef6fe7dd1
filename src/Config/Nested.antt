-- ===== src/Config/Nested.antt =====
-- Locations within locations.
use mathlib.Core.Path.{subst}
use ngx_cache_purge.Prelude.{
  ◌≡◌, inl, inr, sym, Bool, true, false, ◌||◌, not, List, [], ◌∷◌, Option, none, some, ◌>>=◌,
  Bool-cases, Option-cases, arith,
}
use ngx_cache_purge.Generation.State.{is_some}
use ngx_cache_purge.Queue.Counts.{All}
use ngx_cache_purge.Config.Settings.{Protocol, Handler, access_gate, LocConf, Core, Merged, is_on}
use ngx_cache_purge.Config.Merge.{merge_gates, protocols, merge_values, merge_loc_conf, show_status}
use ngx_cache_purge.Config.Merged.{merge_location_cases, merge_loc_conf_steps}
use ngx_cache_purge.Config.Gates.{Gated, first_of, merge_gates-Gated, merge_refresh-SameGates}

abbrev pub is_gate : Option Handler → Bool
is_gate (some access_gate) = true
is_gate _ = false

-- The requests that the gate does not take do not come back to it.
abbrev pub LeavesGate : LocConf → Type 0
LeavesGate c = is_gate c.original_handler ≡ false

-- A location as it is read: nobody has put the gate there.
abbrev pub IsFresh : Core × LocConf → Type 0
IsFresh (core, conf) = (is_gate core.handler ≡ false) × (is_gate conf.original_handler ≡ false)

Gated-LeavesGate :
    (core : Core) (prev conf : LocConf) (m : Merged) (first : Option Protocol)
    → Gated core prev conf m first
    → IsFresh (core, conf)
    → LeavesGate prev
    → LeavesGate m.conf
Gated-LeavesGate core prev conf m none (a, b, o) (f, f') l =
    subst (λ x. is_gate x ≡ false) (sym o)
      (elim (Option-cases conf.original_handler) [
        | inl e ↦ rw e l
        | inr (h, e) ↦ rw e (rw e at f')
      ])
Gated-LeavesGate core prev conf m (some p) (a, b, c, o) (f, f') l =
    subst (λ x. is_gate x ≡ false) (sym o)
      (elim (Bool-cases (is_on (conf.settings p).enable || not core.noname)) [
        | inl e ↦ rw e f
        | inr e ↦ rw e l
      ])

-- The locations from one inwards, each merged with the one around it.
unfoldable pub nest : Bool → Bool → Bool → List (Core × LocConf) → LocConf → Option LocConf
nest background room list_room [] prev = some prev
nest background room list_room ((core, conf) ∷ locations) prev =
    merge_loc_conf background room list_room core prev conf >>= λ m.
    nest background room list_room locations m.conf

show_status_original :
    (room : Bool) (prev conf : LocConf) (m : Merged)
    → show_status room prev conf ≡ some m
    → conf.original_handler ≡ m.conf.original_handler
show_status_original room prev conf m h = elim (Bool-cases (is_some conf.queue_status_cache_path)) [
  | inl e ↦ ground (arith, e, h)
  | inr e ↦ ground (arith, e, h)
]

merge_loc_conf-LeavesGate :
    (background room list_room : Bool) (core : Core) (prev conf : LocConf) (m : Merged)
    → merge_loc_conf background room list_room core prev conf ≡ some m
    → IsFresh (core, conf)
    → LeavesGate prev
    → LeavesGate m.conf
merge_loc_conf-LeavesGate background room list_room core prev conf m h (f, f') l =
    let (c, found, more) = merge_loc_conf_steps background room list_room core prev conf m h in
    let (a, b, o) = merge_refresh-SameGates prev conf c found in
    let c' = merge_values prev c in
    let kept : LeavesGate c = subst (λ x. is_gate x ≡ false) (sym o) f' in
    elim (merge_location_cases background room list_room core prev c' m more) [
      | inl s ↦ subst (λ x. is_gate x ≡ false) (show_status_original list_room prev c' m s) kept
      | inr (inl r) ↦ subst (λ x. LeavesGate x.conf) r kept
      | inr (inr g) ↦
          subst (λ x. LeavesGate x.conf) g
            (Gated-LeavesGate core prev c' (merge_gates protocols core prev c') (first_of prev c')
              (merge_gates-Gated core prev c') (f, kept) l)
    ]

-- However deep locations are nested, and whichever of them purge, the requests that the gate of a
-- location does not take go to a handler other than the gate, if no location is read with the gate.
pub nest-LeavesGate :
    (background room list_room : Bool) (locations : List (Core × LocConf)) (prev c : LocConf)
    → nest background room list_room locations prev ≡ some c
    → All IsFresh locations
    → LeavesGate prev
    → LeavesGate c
unfolding nest
nest-LeavesGate background room list_room [] prev c h fresh l =
    let same : prev ≡ c = ground (arith, h) in subst LeavesGate same l
nest-LeavesGate background room list_room ((core, conf) ∷ locations) prev c h (f, fresh) l =
    elim (Option-cases (merge_loc_conf background room list_room core prev conf)) [
      | inl nil ↦ absurd (grind (arith, rw nil at h))
      | inr (m, found) ↦
          nest-LeavesGate background room list_room locations m.conf c (rw found at h) fresh
            (merge_loc_conf-LeavesGate background room list_room core prev conf m found f l)
    ]
