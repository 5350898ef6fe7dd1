-- ===== src/Config/Once.antt =====
-- A protocol has one directive in a location, and a location that only purges does nothing else.
use mathlib.Core.Path.{subst}
use ngx_cache_purge.Prelude.{
  ℕ, ◌+◌, ◌≡◌, refl, Bool, true, false, List, Option, none, some, ◌==◌, if◌then◌else◌, length, drop,
  codes, bytes_eq, Bool-cases, Option-cases, inl, inr, arith,
}
use ngx_cache_purge.Request.Entry.{Conf}
use ngx_cache_purge.Config.Purge.{off, PurgeConf, Network, arg, add_networks, read_from, purge_conf}
use ngx_cache_purge.Config.Settings.{
  Protocol, fastcgi, proxy, scgi, uwsgi, purge, settings_of, is_on, is_unset, same_protocol,
  set_settings,
}
use ngx_cache_purge.Config.Separate.{
  UpstreamConf, Compiled, Location, may_separate, cache_of, separated, keep_cache, separate,
  protocol_conf,
}

same_protocol_refl : (p : Protocol) → same_protocol p p ≡ true
same_protocol_refl fastcgi = refl
same_protocol_refl proxy = refl
same_protocol_refl scgi = refl
same_protocol_refl uwsgi = refl

module _ (ptocidr : List ℕ → Option Network) (list_room : List ℕ → Bool) where
  read_from_on :
      (position : ℕ) (args : List (List ℕ)) (conf : Conf) (p : PurgeConf)
      → read_from ptocidr list_room position args conf ≡ some p
      → is_unset p.enable ≡ false
  unfolding read_from
  read_from_on position args conf p h =
      elim (Option-cases (add_networks ptocidr list_room (drop (position + 1) args) conf)) [
        | inl nil ↦ ground (arith, nil, h)
        | inr (c, found) ↦ ground (arith, found, h)
      ]

  purge_conf_set :
      (args : List (List ℕ)) (p c : PurgeConf)
      → purge_conf ptocidr list_room args p ≡ some c
      → is_unset c.enable ≡ false
  unfolding purge_conf
  purge_conf_set args p c h =
      let conf = p.conf in
      let method = if bytes_eq (arg 1 args) (codes "on") then codes "PURGE" else arg 1 args in
      let conf' : Conf = record conf { method = method } in
      ground (
        arith,
        h,
        read_from_on 2 args conf' c,
        read_from_on 3 args (record conf' { purge_all = true }) c,
      )

some_inj : {a b : Location} → some a ≡ some b → a ≡ b
some_inj h = cc

-- What is known of a location that only purges.
abbrev pub IsSeparate : Protocol → Bool → Location → Location → Type 0
IsSeparate p is_main_or_srv l l' =
    (is_main_or_srv ≡ false)
    × (is_on l.upstream.cache ≡ false)
    × (l.upstream.has_pass ≡ false)
    × (is_on l.upstream.store ≡ false)
    × ((l'.conf.settings p).enable ≡ off)
    × (l'.conf.resolved ≡ settings_of (l'.conf.settings p))
    × (l'.handler ≡ some (purge p))

module _ (compile : List ℕ → Option Compiled) (add_zone : List ℕ → Option ℕ) (room : Bool) where
  may_separate_lem :
      (is_main_or_srv : Bool) (u : UpstreamConf)
      → may_separate is_main_or_srv u ≡ true
      → (is_main_or_srv ≡ false)
        × (is_on u.cache ≡ false)
        × (u.has_pass ≡ false)
        × (is_on u.store ≡ false)
  unfolding may_separate
  may_separate_lem is_main_or_srv u h = ground (arith, h)

  separated_lem :
      (p : Protocol) (l : Location)
      → (((separated compile add_zone room p l).conf.settings p).enable ≡ off)
        × ((separated compile add_zone room p l).conf.resolved
            ≡ settings_of ((separated compile add_zone room p l).conf.settings p))
        × ((separated compile add_zone room p l).handler ≡ some (purge p))
  separated_lem p l = rw (same_protocol_refl p) (refl, refl, refl)

  separate_lem :
      (p : Protocol) (is_main_or_srv : Bool) (args : List (List ℕ)) (l l' : Location)
      → separate compile add_zone room p is_main_or_srv args l ≡ some l'
      → IsSeparate p is_main_or_srv l l'
  unfolding separate
  separate_lem p is_main_or_srv args l l' h =
      elim (Bool-cases (may_separate is_main_or_srv l.upstream)) [
        | inr bad ↦ absurd (grind (arith, rw bad at h))
        | inl may ↦ elim (Option-cases (cache_of compile add_zone room (arg 1 args))) [
          | inl nil ↦ absurd (grind (arith, rw (may, nil) at h))
          | inr (cache, found) ↦ elim (Option-cases (compile (arg 2 args))) [
            | inl nil ↦ absurd (grind (arith, rw (may, found, nil) at h))
            | inr (key, there) ↦
                let kept = keep_cache compile add_zone room p cache key.addr l in
                let same : separated compile add_zone room p kept ≡ l' =
                  some_inj (rw (may, found, there) at h) in
                let (a, b, c, d) = may_separate_lem is_main_or_srv l.upstream may in
                let (e, f, g) = separated_lem p kept in
                (
                  a,
                  b,
                  c,
                  d,
                  subst (λ x. (x.conf.settings p).enable ≡ off) same e,
                  subst (λ x. x.conf.resolved ≡ settings_of (x.conf.settings p)) same f,
                  subst (λ x. x.handler ≡ some (purge p)) same g,
                )
          ]
        ]
      ]

  module _ (ptocidr : List ℕ → Option Network) (list_room : List ℕ → Bool) where
    -- A directive of three words that is accepted stands in a location, one that neither caches nor
    -- passes on nor stores by that protocol; the location then purges by that protocol and has no
    -- gate of its own for it.
    pub protocol_conf-IsSeparate :
        (p : Protocol) (is_main_or_srv : Bool) (args : List (List ℕ)) (l l' : Location)
        → length args ≡ 3
        → protocol_conf compile add_zone room ptocidr list_room p is_main_or_srv args l ≡ some l'
        → IsSeparate p is_main_or_srv l l'
    unfolding protocol_conf
    protocol_conf-IsSeparate p is_main_or_srv args l l' three h =
        elim (Bool-cases (is_unset (l.conf.settings p).enable)) [
          | inr set ↦ absurd (grind (arith, rw set at h))
          | inl free ↦
              let words : (length args == 3) ≡ true = ground (arith, three) in
              separate_lem p is_main_or_srv args l l' (rw (free, words) at h)
        ]

    protocol_conf_set :
        (p : Protocol) (is_main_or_srv : Bool) (args : List (List ℕ)) (l l' : Location)
        → protocol_conf compile add_zone room ptocidr list_room p is_main_or_srv args l ≡ some l'
        → is_unset (l'.conf.settings p).enable ≡ false
    unfolding protocol_conf
    protocol_conf_set p is_main_or_srv args l l' h =
        elim (Bool-cases (is_unset (l.conf.settings p).enable)) [
          | inr set ↦ absurd (grind (arith, rw set at h))
          | inl free ↦ elim (Bool-cases (length args == 3)) [
            | inl words ↦
                let (a, b, c, d, e, f, g) =
                  separate_lem p is_main_or_srv args l l' (rw (free, words) at h) in
                rw e refl
            | inr words ↦
                elim (Option-cases (purge_conf ptocidr list_room args (l.conf.settings p))) [
                  | inl nil ↦ absurd (grind (arith, rw (free, words, nil) at h))
                  | inr (c, found) ↦
                      let same : record l { conf = set_settings p c l.conf } ≡ l' =
                        some_inj (rw (free, words, found) at h) in
                      subst (λ x. is_unset (x.conf.settings p).enable ≡ false) same
                        (rw (same_protocol_refl p)
                          (purge_conf_set ptocidr list_room args (l.conf.settings p) c found))
                ]
          ]
        ]

    -- After an accepted directive of a protocol, any other directive of the protocol in the same
    -- location is refused, whatever its words are.
    pub protocol_conf_once :
        (p : Protocol) (level level' : Bool) (args args' : List (List ℕ)) (l l' : Location)
        → protocol_conf compile add_zone room ptocidr list_room p level args l ≡ some l'
        → protocol_conf compile add_zone room ptocidr list_room p level' args' l' ≡ none
    unfolding protocol_conf
    protocol_conf_once p level level' args args' l l' h =
        rw (protocol_conf_set p level args l l' h) refl
