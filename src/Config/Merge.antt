-- ===== src/Config/Merge.antt =====
-- The inheritance of a location: `ngx_http_cache_purge_merge_conf` and
-- `ngx_http_cache_purge_merge_loc_conf`.
use ngx_cache_purge.Prelude.{
  ℕ, Bool, true, false, ◌&&◌, ◌||◌, not, List, [], ◌∷◌, Option, none, some, ltb, ◌==◌,
  if◌then◌else◌, codes, ◌>>=◌,
}
use ngx_cache_purge.Generation.State.{is_some}
use ngx_cache_purge.Reply.Escape.{json}
use ngx_cache_purge.Config.Purge.{off, PurgeConf}
use ngx_cache_purge.Config.Settings.{
  Core, Handler, LocConf, Merged, Protocol, Resolved, access_gate, fastcgi, is_enabled, is_on,
  is_unset, nothing, or_else, proxy, purge, queue_status, refresh, scgi, set_settings, settings_of,
  unresolved, uwsgi,
}

unfoldable pub merge_conf : PurgeConf → PurgeConf → PurgeConf
merge_conf conf prev =
    if is_unset conf.enable
    then (if is_on prev.enable then prev else record conf { enable = off })
    else conf

abbrev pub is_queue_status : Option Handler → Bool
is_queue_status (some queue_status) = true
is_queue_status _ = false

abbrev pub is_refresh : Option Handler → Bool
is_refresh (some refresh) = true
is_refresh _ = false

abbrev pub is_resolved : Resolved → Bool
is_resolved unresolved = false
is_resolved _ = true

abbrev pub has_settings : Resolved → Bool
has_settings (settings_of c) = true
has_settings _ = false

abbrev pub inherit_key : LocConf → LocConf → LocConf
inherit_key prev conf =
    if is_some conf.namespace
    then conf
    else record conf { namespace = prev.namespace; logical_key = prev.logical_key }

-- The cache of a separate location.
abbrev pub inherit_separate : LocConf → LocConf → LocConf
inherit_separate prev conf =
    if is_unset (conf.settings proxy).enable
      && not (is_some conf.separate_zone)
      && not (is_some conf.separate_value)
    then record conf {
      separate_zone = prev.separate_zone;
      separate_value = prev.separate_value;
      separate_key = prev.separate_key;
      refresh = prev.refresh;
    }
    else conf

abbrev pub timeout_of : Option ℕ → ℕ
timeout_of none = 10000
timeout_of (some t) = t

abbrev pub inherit_profile : LocConf → LocConf → LocConf
inherit_profile prev conf =
    let timed = record conf {
      refresh_timeout = some (timeout_of (or_else conf.refresh_timeout prev.refresh_timeout));
    } in
    if is_some conf.refresh_location then timed else record timed {
      refresh_location = prev.refresh_location;
      refresh_prefix = prev.refresh_prefix;
    }

-- The settings of a refresh, and the checks on them; `none` is an error.
unfoldable pub merge_refresh : LocConf → LocConf → Option LocConf
merge_refresh prev conf =
    let c = inherit_profile prev (inherit_separate prev (inherit_key prev conf)) in
    let t = timeout_of c.refresh_timeout in
    if c.refresh && not (is_some c.namespace)
    then none
    else if c.refresh && not (is_some c.refresh_location)
    then none
    else if c.refresh && (t == 0 || ltb 3600000 t)
    then none
    else some c

abbrev pub is_any_on : LocConf → Bool
is_any_on c =
    is_on (c.settings fastcgi).enable
    || is_on (c.settings proxy).enable
    || is_on (c.settings scgi).enable
    || is_on (c.settings uwsgi).enable

-- The name of the thread pool and the type of replies, which have defaults.
abbrev pub merge_values : LocConf → LocConf → LocConf
merge_values prev conf = record conf {
  thread_pool_name =
      or_else (or_else conf.thread_pool_name prev.thread_pool_name) (some (codes "default"));
  response_type = or_else (or_else conf.response_type prev.response_type) (some json);
}

-- The gate in front of the handler of a location.
unfoldable pub gate : Protocol → Bool → Core → LocConf → LocConf → Merged
gate p was_set core prev conf = record {
  conf = record conf {
    resolved = settings_of (conf.settings p);
    handler = some (purge p);
    original_handler = if was_set || not core.noname then core.handler else prev.original_handler;
  };
  core_handler = some access_gate;
  shows_status = false;
}

-- What a location without a protocol inherits.
abbrev pub inherit_rest : LocConf → LocConf → LocConf
inherit_rest prev conf = record conf {
  resolved = elim conf.resolved [
    | unresolved ↦ elim prev.resolved [
      | unresolved ↦ nothing
      | nothing ↦ nothing
      | settings_of c ↦ settings_of c
    ]
    | nothing ↦ nothing
    | settings_of c ↦ settings_of c
  ];
  handler = or_else conf.handler prev.handler;
  original_handler = or_else conf.original_handler prev.original_handler;
}

-- The four blocks, one for each protocol, of which the first that is enabled is the last to run.
unfoldable pub merge_gates : List Protocol → Core → LocConf → LocConf → Merged
merge_gates [] core prev conf = record {
  conf = inherit_rest prev conf;
  core_handler = core.handler;
  shows_status = false;
}
merge_gates (p ∷ protocols) core prev conf =
    let merged = merge_conf (conf.settings p) (prev.settings p) in
    let conf' = set_settings p merged conf in
    let rest = merge_gates protocols core prev conf' in
    if is_enabled merged.enable
    then gate p (is_on (conf.settings p).enable) core prev conf'
    else rest

abbrev pub protocols : List Protocol
protocols = fastcgi ∷ proxy ∷ scgi ∷ uwsgi ∷ []

-- A location that shows the status of the queue; `room` says whether the list of them can grow.
abbrev pub show_status : Bool → LocConf → LocConf → Option Merged
show_status room prev conf =
    let own = is_some conf.queue_status_cache_path in
    let c = record conf { queue_status_cache_path = prev.queue_status_cache_path } in
    if not own && not room
    then none
    else some (record {
      conf = if own then conf else c;
      core_handler = some queue_status;
      shows_status = not own;
    })

-- A location that refreshes.
abbrev pub refreshes : LocConf → Merged
refreshes conf =
    let own = record (conf.settings proxy) { enable = off } in
    let c = set_settings proxy own conf in
    record {
      conf = record c { resolved = settings_of own };
      core_handler = some refresh;
      shows_status = false;
    }

-- Whether the location is one that shows the status, by its handler or its parent.
abbrev pub takes_status : Core → LocConf → LocConf → Bool
takes_status core prev conf =
    is_queue_status core.handler
    || not (is_some core.handler)
      && is_some prev.queue_status_cache_path
      && not (is_resolved conf.resolved || is_any_on conf)

-- The thread pool that the location uses is registered; `room` says whether that succeeds.
abbrev pub register_pool : Bool → Bool → Merged → Option Merged
register_pool background room m =
    if (background || is_some m.conf.namespace) && has_settings m.conf.resolved && not room
    then none
    else some m

unfoldable pub merge_location : Bool → Bool → Bool → Core → LocConf → LocConf → Option Merged
merge_location background room list_room core prev conf =
    if is_some conf.queue_status_cache_path && (is_resolved conf.resolved || is_any_on conf)
    then none
    else if takes_status core prev conf
    then show_status list_room prev conf
    else if conf.refresh && (not (is_some core.handler) || is_refresh core.handler)
    then register_pool background room (refreshes conf)
    else register_pool background room (merge_gates protocols core prev conf)

-- `NGX_CONF_OK` with what is merged, or `none` for an error.
unfoldable pub merge_loc_conf : Bool → Bool → Bool → Core → LocConf → LocConf → Option Merged
merge_loc_conf background room list_room core prev conf = merge_refresh prev conf >>= λ c.
    merge_location background room list_room core prev (merge_values prev c)
