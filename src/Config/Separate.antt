-- ===== src/Config/Separate.antt =====
-- The directives of the four protocols: `ngx_http_fastcgi_cache_purge_conf` and its kin for proxy,
-- SCGI and uWSGI, with nginx 1.7.9 or later, and `ngx_http_cache_refresh_conf`.
use ngx_cache_purge.Prelude.{
  ℕ, Bool, true, ◌&&◌, not, List, Option, none, some, ◌==◌, if◌then◌else◌, length, ◌>>=◌,
}
use ngx_cache_purge.Config.Purge.{Setting, off, on, Network, arg, purge_conf}
use ngx_cache_purge.Config.Settings.{
  Protocol, fastcgi, proxy, scgi, uwsgi, Handler, purge, refresh, settings_of, LocConf, is_on,
  is_unset, or_else, set_settings,
}

-- The part of the settings of nginx's module for a protocol: its cache, whether requests are passed
-- on and answers stored, and, for another protocol than proxy, the cache and the key of a location
-- that only purges.
pub record UpstreamConf : Type 0 where
  pub cache : Setting
  pub has_pass : Bool
  pub store : Setting
  pub cache_value : Option ℕ
  pub cache_zone : Option ℕ
  pub cache_key : Option ℕ

-- A compiled expression, and whether it has variables.
pub record Compiled : Type 0 where
  pub addr : ℕ
  pub has_lengths : Bool

-- A location while it is read: the settings of the module and of nginx, and its handler.
pub record Location : Type 0 where
  pub conf : LocConf
  pub upstream : UpstreamConf
  pub handler : Option Handler

-- The tests before a location becomes one that only purges: the level, and what nginx does there.
unfoldable pub may_separate : Bool → UpstreamConf → Bool
may_separate is_main_or_srv u =
    not is_main_or_srv && not (is_on u.cache) && not u.has_pass && not (is_on u.store)

-- `compile` compiles an expression, `add_zone` looks up a zone of nginx, and `room` says whether
-- there is memory for a compiled expression.
module _ (compile : List ℕ → Option Compiled) (add_zone : List ℕ → Option ℕ) (room : Bool) where
  -- The address of the expression of the zone, or of the zone; `none` is an error.
  unfoldable pub cache_of : List ℕ → Option (Option ℕ × Option ℕ)
  cache_of name = compile name >>= λ v.
      if v.has_lengths
      then (if room then some (some v.addr, none) else none)
      else (add_zone name >>= λ zone. some (none, some zone))

  -- `cplcf->conf = &cplcf->proxy` and the like.
  abbrev pub separated : Protocol → Location → Location
  separated p l =
      let own = record (l.conf.settings p) { enable = off } in
      let c = set_settings p own l.conf in
      record l { conf = record c { resolved = settings_of own }; handler = some (purge p) }

  -- The cache and the key, which proxy keeps in the settings of the module.
  abbrev pub keep_cache : Protocol → Option ℕ × Option ℕ → ℕ → Location → Location
  keep_cache proxy cache key l =
      let c = l.conf in
      record l {
        conf = record c {
          separate_value = or_else cache.0 c.separate_value;
          separate_zone = or_else cache.1 c.separate_zone;
          separate_key = some key;
        };
      }
  keep_cache p cache key l =
      let u = l.upstream in
      record l {
        upstream = record u {
          cache = on;
          cache_value = or_else cache.0 u.cache_value;
          cache_zone = or_else cache.1 u.cache_zone;
          cache_key = some key;
        };
      }

  unfoldable pub separate : Protocol → Bool → List (List ℕ) → Location → Option Location
  separate p is_main_or_srv args l =
      if not (may_separate is_main_or_srv l.upstream)
      then none
      else (cache_of (arg 1 args) >>= λ cache.
          compile (arg 2 args) >>= λ key. some (separated p (keep_cache p cache key.addr l)))

  module _ (ptocidr : List ℕ → Option Network) (list_room : List ℕ → Bool) where
    -- `args` has the name of the directive first.
    unfoldable pub protocol_conf : Protocol → Bool → List (List ℕ) → Location → Option Location
    protocol_conf p is_main_or_srv args l =
        if not (is_unset (l.conf.settings p).enable)
        then none
        else if not (length args == 3)
        then (purge_conf ptocidr list_room args (l.conf.settings p) >>= λ c.
            some (record l { conf = set_settings p c l.conf }))
        else separate p is_main_or_srv args l

    unfoldable pub refresh_conf : Bool → List (List ℕ) → Location → Option Location
    refresh_conf is_main_or_srv args l = protocol_conf proxy is_main_or_srv args l >>= λ l'.
        some (record l' {
          conf = (let c = l'.conf in record c { refresh = true });
          handler = some refresh;
        })

    abbrev pub fastcgi_cache_purge_conf : Bool → List (List ℕ) → Location → Option Location
    fastcgi_cache_purge_conf = protocol_conf fastcgi

    abbrev pub proxy_cache_purge_conf : Bool → List (List ℕ) → Location → Option Location
    proxy_cache_purge_conf = protocol_conf proxy

    abbrev pub scgi_cache_purge_conf : Bool → List (List ℕ) → Location → Option Location
    scgi_cache_purge_conf = protocol_conf scgi

    abbrev pub uwsgi_cache_purge_conf : Bool → List (List ℕ) → Location → Option Location
    uwsgi_cache_purge_conf = protocol_conf uwsgi
