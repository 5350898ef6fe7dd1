-- ===== src/Config/Gates.antt =====
-- Which protocol's settings guard a location, and what becomes of the handler it had.
use mathlib.Core.Path.{subst}
use ngx_cache_purge.Prelude.{
  ◌≡◌, ◌≢◌, ◌⊎◌, inl, inr, refl, true, false, sym, ◌∙◌, Bool, ◌&&◌, ◌||◌, not, Option, none, some,
  if◌then◌else◌, Bool-cases, arith, ap,
}
use ngx_cache_purge.Generation.State.{is_some}
use ngx_cache_purge.Config.Purge.{Setting, unset, off, on, PurgeConf}
use ngx_cache_purge.Config.Settings.{
  Protocol, fastcgi, proxy, scgi, uwsgi, Handler, access_gate, queue_status, refresh, purge,
  settings_of, LocConf, Core, Merged, is_on, is_enabled, is_unset, or_else,
}
use ngx_cache_purge.Config.Merge.{
  merge_conf, merge_refresh, gate, merge_gates, protocols, merge_values, merge_loc_conf,
  show_status, inherit_profile, inherit_separate, inherit_key,
}
use ngx_cache_purge.Config.Merged.{merge_refresh_cases, merge_location_cases, merge_loc_conf_steps}

-- Whether a location purges by a protocol: it says so, or says nothing and the parent does.
abbrev pub purges : LocConf → LocConf → Protocol → Bool
purges prev conf p =
    let own = (conf.settings p).enable in
    is_on own || is_unset own && is_on (prev.settings p).enable

-- The settings of a protocol by which a location purges: its own, or those of the parent.
abbrev pub inherited : LocConf → LocConf → Protocol → PurgeConf
inherited prev conf p = if is_on (conf.settings p).enable then conf.settings p else prev.settings p

-- The first of the protocols that purge.
abbrev pub first_of : LocConf → LocConf → Option Protocol
first_of prev conf =
    if purges prev conf fastcgi
    then some fastcgi
    else if purges prev conf proxy
    then some proxy
    else if purges prev conf scgi
    then some scgi
    else if purges prev conf uwsgi
    then some uwsgi
    else none

-- What a location with the gate has: the settings of a protocol, its handler, and the handler that
-- takes the requests of other methods.
abbrev pub IsGuarded : Core → LocConf → LocConf → Merged → Protocol → Type 0
IsGuarded core prev conf m p =
    (m.core_handler ≡ some access_gate)
    × (m.conf.resolved ≡ settings_of (inherited prev conf p))
    × (m.conf.handler ≡ some (purge p))
    × (m.conf.original_handler ≡ (
        if is_on (conf.settings p).enable || not core.noname
        then core.handler
        else prev.original_handler))

abbrev pub IsOpen : Core → LocConf → LocConf → Merged → Type 0
IsOpen core prev conf m =
    (m.core_handler ≡ core.handler)
    × (m.conf.handler ≡ or_else conf.handler prev.handler)
    × (m.conf.original_handler ≡ or_else conf.original_handler prev.original_handler)

abbrev pub Gated : Core → LocConf → LocConf → Merged → Option Protocol → Type 0
Gated core prev conf m none = IsOpen core prev conf m
Gated core prev conf m (some p) = IsGuarded core prev conf m p

-- The four tests on two settings.
setting_cases :
    (s : Setting)
    → ((is_on s ≡ true) × (is_unset s ≡ false) × (is_enabled s ≡ true))
      ⊎ ((is_on s ≡ false) × (is_unset s ≡ true) × (is_enabled s ≡ true))
      ⊎ ((is_on s ≡ false) × (is_unset s ≡ false) × (is_enabled s ≡ false))
setting_cases unset = inr (inl (refl, refl, refl))
setting_cases off = inr (inr (refl, refl, refl))
setting_cases on = inl (refl, refl, refl)

merge_conf_on :
    (prev conf : LocConf) (p : Protocol)
    → purges prev conf p ≡ true
    → (is_enabled (merge_conf (conf.settings p) (prev.settings p)).enable ≡ true)
      × (merge_conf (conf.settings p) (prev.settings p) ≡ inherited prev conf p)
unfolding merge_conf
merge_conf_on prev conf p h = elim (setting_cases (conf.settings p).enable) [
  | inl (x, y, z) ↦ rw (x, y, z) (refl, refl)
  | inr (inl (x, y, z)) ↦
      let parent : is_on (prev.settings p).enable ≡ true = rw (x, y) at h in
      elim (setting_cases (prev.settings p).enable) [
        | inl (a, b, c) ↦ rw (x, y, a, c) (refl, refl)
        | inr (inl (a, b, c)) ↦ absurd (ground (arith, a, parent))
        | inr (inr (a, b, c)) ↦ absurd (ground (arith, a, parent))
      ]
  | inr (inr (x, y, z)) ↦ absurd (grind (arith, rw (x, y) at h))
]

merge_conf_off :
    (prev conf : LocConf) (p : Protocol)
    → purges prev conf p ≡ false
    → is_enabled (merge_conf (conf.settings p) (prev.settings p)).enable ≡ false
unfolding merge_conf
merge_conf_off prev conf p h = elim (setting_cases (conf.settings p).enable) [
  | inl (x, y, z) ↦ absurd (grind (arith, rw x at h))
  | inr (inl (x, y, z)) ↦
      let parent : is_on (prev.settings p).enable ≡ false = rw (x, y) at h in rw (y, parent) refl
  | inr (inr (x, y, z)) ↦ rw (y, z) refl
]

pub merge_gates-Gated :
    (core : Core) (prev conf : LocConf)
    → Gated core prev conf (merge_gates protocols core prev conf) (first_of prev conf)
unfolding merge_gates gate
merge_gates-Gated core prev conf =
    let on = merge_conf_on prev conf in
    let off = merge_conf_off prev conf in
    elim (Bool-cases (purges prev conf fastcgi)) [
      | inl e ↦ rw (e, (on fastcgi e).0) (refl, ap settings_of (on fastcgi e).1, refl, refl)
      | inr a ↦ elim (Bool-cases (purges prev conf proxy)) [
        | inl e ↦
            rw (a, off fastcgi a, e, (on proxy e).0)
              (refl, ap settings_of (on proxy e).1, refl, refl)
        | inr b ↦ elim (Bool-cases (purges prev conf scgi)) [
          | inl e ↦
              rw (a, off fastcgi a, b, off proxy b, e, (on scgi e).0)
                (refl, ap settings_of (on scgi e).1, refl, refl)
          | inr c ↦ elim (Bool-cases (purges prev conf uwsgi)) [
            | inl e ↦
                rw (a, off fastcgi a, b, off proxy b, c, off scgi c, e, (on uwsgi e).0)
                  (refl, ap settings_of (on uwsgi e).1, refl, refl)
            | inr d ↦
                rw (a, off fastcgi a, b, off proxy b, c, off scgi c, d, off uwsgi d)
                  (refl, refl, refl)
          ]
        ]
      ]
    ]

-- Two settings that agree in what the four blocks read.
abbrev pub SameGates : LocConf → LocConf → Type 0
SameGates c d =
    (c.settings ≡ d.settings) × (c.handler ≡ d.handler) × (c.original_handler ≡ d.original_handler)

inherit_key-SameGates : (prev conf : LocConf) → SameGates (inherit_key prev conf) conf
inherit_key-SameGates prev conf = elim (Bool-cases (is_some conf.namespace)) [
  | inl e ↦ rw e (refl, refl, refl)
  | inr e ↦ rw e (refl, refl, refl)
]

inherit_separate-SameGates : (prev conf : LocConf) → SameGates (inherit_separate prev conf) conf
inherit_separate-SameGates prev conf =
    elim (Bool-cases (
      is_unset (conf.settings proxy).enable
      && not (is_some conf.separate_zone)
      && not (is_some conf.separate_value))) [
        | inl e ↦ rw e (refl, refl, refl)
        | inr e ↦ rw e (refl, refl, refl)
      ]

inherit_profile-SameGates : (prev conf : LocConf) → SameGates (inherit_profile prev conf) conf
inherit_profile-SameGates prev conf = elim (Bool-cases (is_some conf.refresh_location)) [
  | inl e ↦ rw e (refl, refl, refl)
  | inr e ↦ rw e (refl, refl, refl)
]

SameGates-trans : (a b c : LocConf) → SameGates a b → SameGates b c → SameGates a c
SameGates-trans a b c (x, y, z) (x', y', z') = (x ∙ x', y ∙ y', z ∙ z')

pub merge_refresh-SameGates :
    (prev conf c : LocConf) → merge_refresh prev conf ≡ some c → SameGates c conf
merge_refresh-SameGates prev conf c h =
    let key = inherit_key prev conf in
    let separate = inherit_separate prev key in
    subst (λ x. SameGates x conf) (merge_refresh_cases prev conf c h).0
      (SameGates-trans (inherit_profile prev separate) separate conf
        (inherit_profile-SameGates prev separate)
        (SameGates-trans separate key conf (inherit_separate-SameGates prev key)
          (inherit_key-SameGates prev conf)))

-- The tests of the blocks read nothing else.
Gated-SameGates :
    (core : Core) (prev c d : LocConf) (m : Merged)
    → SameGates c d
    → Gated core prev c m (first_of prev c)
    → Gated core prev d m (first_of prev d)
Gated-SameGates core prev c d m (s, h, o) g =
    let P : (Protocol → PurgeConf) → Option Handler → Option Handler → Type 0 = λ s h o.
      (let x : LocConf = record d { settings = s; handler = h; original_handler = o } in
        Gated core prev x m (first_of prev x)) in
    subst (λ o. P d.settings d.handler o) o
      (subst (λ h. P d.settings h c.original_handler) h
        (subst (λ s. P s c.handler c.original_handler) s g))

show_status-queue_status :
    (room : Bool) (prev conf : LocConf) (m : Merged)
    → show_status room prev conf ≡ some m
    → m.core_handler ≡ some queue_status
show_status-queue_status room prev conf m h = ground (arith, h)

-- A location that is merged without an error, and neither shows the status of the queue nor
-- refreshes, has the settings and the handler of the first protocol that purges, by itself or, if
-- it says nothing about that protocol, in the parent; the gate is in front, and the requests it
-- does not take go to the handler that the location had, or, in an anonymous location that only
-- inherits, to the one that the parent passes them to. If no protocol purges, the handler of the
-- location stays.
pub merge_loc_conf-Gated :
    (background room list_room : Bool) (core : Core) (prev conf : LocConf) (m : Merged)
    → merge_loc_conf background room list_room core prev conf ≡ some m
    → m.core_handler ≢ some queue_status
    → m.core_handler ≢ some refresh
    → Gated core prev conf m (first_of prev conf)
merge_loc_conf-Gated background room list_room core prev conf m h not_status not_refresh =
    let (c, found, more) = merge_loc_conf_steps background room list_room core prev conf m h in
    let c' = merge_values prev c in
    Gated-SameGates core prev c conf m (merge_refresh-SameGates prev conf c found)
      (elim (merge_location_cases background room list_room core prev c' m more) [
        | inl s ↦ absurd (not_status (show_status-queue_status list_room prev c' m s))
        | inr (inl r) ↦ absurd (not_refresh (ap (λ x. x.core_handler) (sym r)))
        | inr (inr g) ↦
            subst (λ x. Gated core prev c' x (first_of prev c')) g (merge_gates-Gated core prev c')
      ])
