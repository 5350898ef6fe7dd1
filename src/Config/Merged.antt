-- ===== src/Config/Merged.antt =====
-- What a location is after it has been merged with its parent.
use mathlib.Core.Path.{subst}
use ngx_cache_purge.Prelude.{
  ◌≤◌, ◌<◌, ◌≡◌, ◌⊎◌, inl, inr, refl, sym, ◌∙◌, Bool, true, ◌&&◌, ◌||◌, not, List, [], ◌∷◌, none,
  some, if◌then◌else◌, Bool-cases, Option-cases, arith, ltb, ◌==◌,
}
use ngx_cache_purge.Generation.State.{is_some}
use ngx_cache_purge.Config.Settings.{Protocol, LocConf, Core, Merged, is_enabled, set_settings}
use ngx_cache_purge.Config.Merge.{
  merge_conf, timeout_of, inherit_profile, inherit_separate, inherit_key, register_pool,
  has_settings, show_status, refreshes, takes_status, is_resolved, is_any_on, is_refresh,
  merge_refresh, gate, merge_gates, protocols, merge_values, merge_location, merge_loc_conf,
}

-- A location that refreshes has a namespace and a profile, and a time limit from 1 ms to an hour.
abbrev pub IsReady : LocConf → Type 0
IsReady c =
    c.refresh ≡ true
    → (is_some c.namespace ≡ true)
      × (is_some c.refresh_location ≡ true)
      × (0 < timeout_of c.refresh_timeout)
      × (timeout_of c.refresh_timeout ≤ 3600000)

-- Two settings that agree in what a refresh reads.
abbrev SameRefresh : LocConf → LocConf → Type 0
SameRefresh c d =
    (c.refresh ≡ d.refresh)
    × (c.namespace ≡ d.namespace)
    × (c.refresh_location ≡ d.refresh_location)
    × (c.refresh_timeout ≡ d.refresh_timeout)

SameRefresh-IsReady : (c d : LocConf) → SameRefresh d c → IsReady c → IsReady d
SameRefresh-IsReady c d (a, b, e, f) ready r = ground (arith, ready (sym a ∙ r), b, e, f)

merge_refresh_checks :
    (mid c : LocConf)
    → (if mid.refresh && not (is_some mid.namespace)
        then none
        else if mid.refresh && not (is_some mid.refresh_location)
        then none
        else if mid.refresh
            && (timeout_of mid.refresh_timeout == 0 || ltb 3600000 (timeout_of mid.refresh_timeout))
        then none
        else some mid)
      ≡ some c
    → (mid ≡ c) × IsReady c
merge_refresh_checks mid c h = elim (Bool-cases (mid.refresh && not (is_some mid.namespace))) [
  | inl bad ↦ absurd (grind (arith, rw bad at h))
  | inr a ↦ elim (Bool-cases (mid.refresh && not (is_some mid.refresh_location))) [
    | inl bad ↦ absurd (grind (arith, rw (a, bad) at h))
    | inr b ↦
        elim (Bool-cases (
          mid.refresh
          && (timeout_of mid.refresh_timeout == 0
              || ltb 3600000 (timeout_of mid.refresh_timeout)))) [
                | inl bad ↦ absurd (grind (arith, rw (a, b, bad) at h))
                | inr d ↦
                    let same : mid ≡ c = ground (arith, rw (a, b, d) at h) in
                    (same, subst IsReady same (λ r. ground (arith, r, a, b, d)))
              ]
  ]
]

pub merge_refresh_cases :
    (prev conf c : LocConf)
    → merge_refresh prev conf ≡ some c
    → (inherit_profile prev (inherit_separate prev (inherit_key prev conf)) ≡ c) × IsReady c
unfolding merge_refresh
merge_refresh_cases prev conf c h =
    let mid = inherit_profile prev (inherit_separate prev (inherit_key prev conf)) in
    merge_refresh_checks mid c h

merge_gates-SameRefresh :
    (ps : List Protocol) (core : Core) (prev conf : LocConf)
    → SameRefresh (merge_gates ps core prev conf).conf conf
unfolding merge_gates gate
merge_gates-SameRefresh [] core prev conf = (refl, refl, refl, refl)
merge_gates-SameRefresh (p ∷ ps) core prev conf =
    let merged = merge_conf (conf.settings p) (prev.settings p) in
    elim (Bool-cases (is_enabled merged.enable)) [
      | inl e ↦ rw e (refl, refl, refl, refl)
      | inr e ↦ rw e (merge_gates-SameRefresh ps core prev (set_settings p merged conf))
    ]

register_pool_same :
    (background room : Bool) (m n : Merged) → register_pool background room m ≡ some n → m ≡ n
register_pool_same background room m n h =
    elim (Bool-cases
      ((background || is_some m.conf.namespace) && has_settings m.conf.resolved && not room)) [
        | inl e ↦ absurd (grind (arith, e, rw e at h))
        | inr e ↦ ground (arith, rw e at h)
      ]

-- A location shows the status, refreshes, or goes through the four blocks.
pub merge_location_cases :
    (background room list_room : Bool) (core : Core) (prev conf : LocConf) (m : Merged)
    → merge_location background room list_room core prev conf ≡ some m
    → (show_status list_room prev conf ≡ some m)
      ⊎ (refreshes conf ≡ m)
      ⊎ (merge_gates protocols core prev conf ≡ m)
unfolding merge_location
merge_location_cases background room list_room core prev conf m h =
    elim (Bool-cases
      (is_some conf.queue_status_cache_path && (is_resolved conf.resolved || is_any_on conf))) [
        | inl bad ↦ absurd (grind (arith, rw bad at h))
        | inr fine ↦ elim (Bool-cases (takes_status core prev conf)) [
          | inl s ↦ inl (rw (fine, s) at h)
          | inr n ↦
              elim (Bool-cases
                (conf.refresh && (not (is_some core.handler) || is_refresh core.handler))) [
                  | inl r ↦
                      inr (inl (register_pool_same background room _ m (rw (fine, n, r) at h)))
                  | inr g ↦
                      inr (inr (register_pool_same background room _ m (rw (fine, n, g) at h)))
                ]
        ]
      ]

merge_location-SameRefresh :
    (background room list_room : Bool) (core : Core) (prev conf : LocConf) (m : Merged)
    → merge_location background room list_room core prev conf ≡ some m
    → SameRefresh m.conf conf
merge_location-SameRefresh background room list_room core prev conf m h =
    elim (merge_location_cases background room list_room core prev conf m h) [
      | inl s ↦ ground (arith, s)
      | inr g ↦ elim g [
        | inl r ↦ subst (λ x. SameRefresh x.conf conf) r (refl, refl, refl, refl)
        | inr g ↦
            subst (λ x. SameRefresh x.conf conf) g
              (merge_gates-SameRefresh protocols core prev conf)
      ]
    ]

pub merge_loc_conf_steps :
    (background room list_room : Bool) (core : Core) (prev conf : LocConf) (m : Merged)
    → merge_loc_conf background room list_room core prev conf ≡ some m
    → (c : LocConf) × (merge_refresh prev conf ≡ some c)
      × (merge_location background room list_room core prev (merge_values prev c) ≡ some m)
unfolding merge_loc_conf
merge_loc_conf_steps background room list_room core prev conf m h =
    elim (Option-cases (merge_refresh prev conf)) [
      | inl nil ↦ absurd (grind (arith, rw nil at h))
      | inr (c, found) ↦ (c, found, rw found at h)
    ]

-- A location that is merged without an error, and refreshes, has a namespace and a profile, and a
-- time limit from 1 ms to an hour.
pub merge_loc_conf-IsReady :
    (background room list_room : Bool) (core : Core) (prev conf : LocConf) (m : Merged)
    → merge_loc_conf background room list_room core prev conf ≡ some m
    → IsReady m.conf
merge_loc_conf-IsReady background room list_room core prev conf m h =
    let (c, found, more) = merge_loc_conf_steps background room list_room core prev conf m h in
    let ready = (merge_refresh_cases prev conf c found).1 in
    let same =
      merge_location-SameRefresh background room list_room core prev (merge_values prev c) m more in
    SameRefresh-IsReady (merge_values prev c) m.conf same ready
