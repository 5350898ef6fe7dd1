-- ===== src/Config/Purge.antt =====
-- The directive of a protocol in its inline form: `ngx_http_cache_purge_conf`.
use ngx_cache_purge.Prelude.{
  ℕ, zero, suc, ◌+◌, Bool, true, false, not, List, [], ◌∷◌, ◌++◌, Option, none, some, ltb, ◌==◌,
  if◌then◌else◌, length, drop, codes, bytes_eq, ◌>>=◌,
}
use ngx_cache_purge.Request.Access.{Cidr, Cidr6}
use ngx_cache_purge.Request.Entry.{Conf}

-- A flag that may be unset.
pub data Setting : Type 0 where
  unset off on : Setting

-- `ngx_http_cache_purge_conf_t`.
pub record PurgeConf : Type 0 where
  pub enable : Setting
  pub conf : Conf

-- `ngx_cidr_t`, of the families that `ngx_ptocidr` gives.
pub data Network : Type 0 where
  v4 : Cidr → Network
  v6 : Cidr6 → Network

-- `value[i]`, below the number of arguments; the name of the directive is the first.
unfoldable pub arg : ℕ → List (List ℕ) → List ℕ
arg i [] = []
arg zero (v ∷ values) = v
arg (suc i) (v ∷ values) = arg i values

-- `ngx_array_push`, on an array that is made first if there is none.
abbrev pub push {ℓ} : {A : Type ℓ} → A → Option (List A) → Option (List A)
push x none = some (x ∷ [])
push x (some xs) = some (xs ++ x ∷ [])

unfoldable pub add_network : Network → Conf → Conf
add_network (v4 cidr) conf = record conf { access = push cidr conf.access }
add_network (v6 cidr) conf = record conf { access6 = push cidr conf.access6 }

-- `room` says whether there is memory for an address.
module _ (ptocidr : List ℕ → Option Network) (room : List ℕ → Bool) where
  -- The loop over the addresses; `none` is an error.
  unfoldable pub add_networks : List (List ℕ) → Conf → Option Conf
  add_networks [] conf = some conf
  add_networks (value ∷ values) conf = elim (ptocidr value) [
    | none ↦ none
    | some network ↦
        let rest = add_networks values (add_network network conf) in
        if room value then rest else none
  ]

  abbrev pub enabled : Conf → PurgeConf
  enabled conf = record { enable = on; conf = conf }

  -- What follows the method, from the keyword `from` at a position on.
  unfoldable pub read_from : ℕ → List (List ℕ) → Conf → Option PurgeConf
  read_from position args conf =
      if not (bytes_eq (arg position args) (codes "from"))
      then none
      else if position + 1 == length args
      then none
      else if bytes_eq (arg (position + 1) args) (codes "all")
      then (if position + 2 == length args then some (enabled conf) else none)
      else (add_networks (drop (position + 1) args) conf >>= λ c. some (enabled c))

  -- `NGX_CONF_OK` with the new settings, or `none` for an error.
  unfoldable pub purge_conf : List (List ℕ) → PurgeConf → Option PurgeConf
  purge_conf args p =
      let method = arg 1 args in
      let named =
        (let c = p.conf in
          record c { method = if bytes_eq method (codes "on") then codes "PURGE" else method }) in
      if bytes_eq method (codes "off")
      then some (record p { enable = off })
      else if ltb (length args) 4
      then some (enabled named)
      else if bytes_eq (arg 2 args) (codes "purge_all")
      then read_from 3 args (record named { purge_all = true })
      else read_from 2 args named

abbrev pub fresh_purge_conf : PurgeConf
fresh_purge_conf = record {
  enable = unset;
  conf = record { method = []; purge_all = false; access = none; access6 = none };
}
