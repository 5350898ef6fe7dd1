-- ===== src/Config/Settings.antt =====
-- The settings of a location: what `ngx_http_cache_purge_create_loc_conf` makes, and the helpers of
-- the directives and the merge.
use ngx_cache_purge.Prelude.{ℕ, Bool, true, false, List, [], Option, none, some, if◌then◌else◌}
use ngx_cache_purge.Reply.Escape.{ResponseType}
use ngx_cache_purge.Config.Purge.{Setting, unset, off, on, PurgeConf, fresh_purge_conf}

pub data Protocol : Type 0 where
  fastcgi proxy scgi uwsgi : Protocol

-- `ngx_http_handler_pt`: the handlers of the module, and those of others by their addresses.
pub data Handler : Type 0 where
  queue_status access_gate refresh : Handler
  purge : Protocol → Handler
  other : ℕ → Handler

-- `conf->conf`: `NGX_CONF_UNSET_PTR`, `NULL`, or the settings of a protocol.
pub data Resolved : Type 0 where
  unresolved nothing : Resolved
  settings_of : PurgeConf → Resolved

-- `ngx_http_cache_purge_loc_conf_t`; the settings of the four protocols are a function of them, and
-- a namespace, a zone or a compiled value is its address.
pub record LocConf : Type 0 where
  pub settings : Protocol → PurgeConf
  pub resolved : Resolved
  pub handler : Option Handler
  pub original_handler : Option Handler
  pub response_type : Option ResponseType
  pub queue_status_cache_path : Option (List ℕ)
  pub thread_pool_name : Option (List ℕ)
  pub namespace : Option ℕ
  pub logical_key : Option ℕ
  pub refresh : Bool
  pub refresh_location : Option (List ℕ)
  pub refresh_prefix : List ℕ
  pub refresh_timeout : Option ℕ
  pub separate_zone : Option ℕ
  pub separate_value : Option ℕ
  pub separate_key : Option ℕ

-- `ngx_http_cache_purge_create_loc_conf`.
abbrev pub fresh_loc_conf : LocConf
fresh_loc_conf = record {
  settings = λ p. fresh_purge_conf;
  resolved = unresolved;
  handler = none;
  original_handler = none;
  response_type = none;
  queue_status_cache_path = none;
  thread_pool_name = none;
  namespace = none;
  logical_key = none;
  refresh = false;
  refresh_location = none;
  refresh_prefix = [];
  refresh_timeout = none;
  separate_zone = none;
  separate_value = none;
  separate_key = none;
}

-- The location of nginx: its handler, and whether it is anonymous, such as an `if` block.
pub record Core : Type 0 where
  pub handler : Option Handler
  pub noname : Bool

-- What a merge leaves: the settings, the handler of the location, and whether it is added to the
-- locations that show the status of the queue.
pub record Merged : Type 0 where
  pub conf : LocConf
  pub core_handler : Option Handler
  pub shows_status : Bool

abbrev pub is_on : Setting → Bool
is_on on = true
is_on _ = false

-- A C test of a flag of which -1 is the unset value.
abbrev pub is_enabled : Setting → Bool
is_enabled off = false
is_enabled _ = true

abbrev pub is_unset : Setting → Bool
is_unset unset = true
is_unset _ = false

abbrev pub or_else {ℓ} : {A : Type ℓ} → Option A → Option A → Option A
or_else none o = o
or_else (some a) o = some a

abbrev pub same_protocol : Protocol → Protocol → Bool
same_protocol fastcgi fastcgi = true
same_protocol proxy proxy = true
same_protocol scgi scgi = true
same_protocol uwsgi uwsgi = true
same_protocol _ _ = false

abbrev pub set_settings : Protocol → PurgeConf → LocConf → LocConf
set_settings p c conf = record conf {
  settings = λ q. if same_protocol p q then c else conf.settings q;
}
