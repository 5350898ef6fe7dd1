-- ===== src/Config/Directives.antt =====
-- The small directives, and the variables of the module.
use ngx_cache_purge.Prelude.{
  ℕ, Bool, true, false, ◌&&◌, ◌||◌, not, List, [], ◌∷◌, ◌++◌, Option, none, some, ltb, ◌==◌,
  if◌then◌else◌, length, take, codes, bytes_eq, ◌>>=◌,
}
use ngx_cache_purge.FilePath.{path_length, char_at}
use ngx_cache_purge.Generation.State.{is_some}
use ngx_cache_purge.Queue.Enqueue.{key_max_len}
use ngx_cache_purge.Reply.Escape.{ResponseType, html, json, xml, text, silent}
use ngx_cache_purge.Refresh.Profile.{has_dollar}
use ngx_cache_purge.Config.Purge.{arg}
use ngx_cache_purge.Config.Settings.{LocConf, Handler, queue_status}

-- `ngx_strcasecmp` of two strings.
module _ (same_caseless : List ℕ → List ℕ → Bool) where
  -- `on`, `off`, or an error.
  unfoldable pub flag : List (List ℕ) → Option Bool
  flag args =
      if same_caseless (arg 1 args) (codes "on")
      then some true
      else if same_caseless (arg 1 args) (codes "off")
      then some false
      else none

  -- The obsolete directive: the same values, which set that it was seen.
  unfoldable pub legacy : List (List ℕ) → Option Bool
  legacy args =
      if not (same_caseless (arg 1 args) (codes "on"))
        && not (same_caseless (arg 1 args) (codes "off"))
      then none
      else some true

-- `atoi` and `parse_msec` are nginx's; a number alone is taken as milliseconds.
unfoldable pub throttle :
    (List ℕ → Option ℕ) → (List ℕ → Option ℕ) → List (List ℕ) → Option ℕ → Option ℕ
throttle atoi parse_msec args delay =
    if is_some delay
    then none
    else elim (atoi (arg 1 args)) [ none ↦ parse_msec (arg 1 args) | some n ↦ some n ]

-- `room` says whether nginx takes the pool.
unfoldable pub thread_pool : Bool → List (List ℕ) → LocConf → Option LocConf
thread_pool room args conf =
    let name = arg 1 args in
    if is_some conf.thread_pool_name
    then none
    else if length name == 0 || ltb key_max_len (length name)
    then none
    else if not room
    then none
    else some (record conf { thread_pool_name = some name })

unfoldable pub type_of_word : List ℕ → Option ResponseType
type_of_word word =
    if bytes_eq word (codes "html")
    then some html
    else if bytes_eq word (codes "json")
    then some json
    else if bytes_eq word (codes "xml")
    then some xml
    else if bytes_eq word (codes "text")
    then some text
    else if bytes_eq word (codes "none")
    then some silent
    else none

unfoldable pub response_type_conf : List (List ℕ) → LocConf → Option LocConf
response_type_conf args conf =
    if is_some conf.response_type
    then none
    else if not (length args == 2)
    then none
    else (type_of_word (arg 1 args) >>= λ t. some (record conf { response_type = some t }))

-- A namespace of the configuration: its address and its name.
pub record NamedNamespace : Type 0 where
  pub addr : ℕ
  pub name : List ℕ

-- `parse_size` is nginx's, `create` makes the namespace, and `room` says whether the list can grow.
unfoldable pub namespace_conf :
    (List ℕ → Option ℕ)
    → (List ℕ → ℕ → List ℕ → Option NamedNamespace)
    → Bool
    → List (List ℕ)
    → List NamedNamespace
    → Option (List NamedNamespace)
namespace_conf parse_size create room args namespaces = parse_size (arg 2 args) >>= λ size.
    create (arg 1 args) size (arg 3 args) >>= λ created.
    if room then some (namespaces ++ created ∷ []) else none

unfoldable pub find_namespace : List ℕ → List NamedNamespace → Option ℕ
find_namespace name [] = none
find_namespace name (n ∷ namespaces) =
    if bytes_eq n.name name then some n.addr else find_namespace name namespaces

-- `compile` compiles an expression.
unfoldable pub key_conf :
    (List ℕ → Option ℕ) → List (List ℕ) → List NamedNamespace → LocConf → Option LocConf
key_conf compile args namespaces conf =
    if is_some conf.namespace
    then none
    else (find_namespace (arg 1 args) namespaces >>= λ ns. compile (arg 2 args) >>= λ key.
        some (record conf { namespace = some ns; logical_key = some key }))

-- `full_name` makes a name absolute; the handler of the location is set with the path.
unfoldable pub queue_status_conf :
    (List ℕ → Option (List ℕ)) → Bool → List (List ℕ) → LocConf → Option (LocConf × Handler)
queue_status_conf full_name room args conf =
    if is_some conf.queue_status_cache_path
    then none
    else if length (arg 1 args) == 0
    then none
    else (full_name (arg 1 args) >>= λ name.
        if not room
        then none
        else some (
          record conf { queue_status_cache_path = some (take (path_length name) name) },
          queue_status,
        ))

unfoldable pub has_question : List ℕ → Bool
has_question [] = false
has_question (c ∷ s) = c == b'?' || has_question s

-- `ngx_http_cache_refresh_profile`.
unfoldable pub refresh_profile : List (List ℕ) → LocConf → Option LocConf
refresh_profile args conf =
    let uri = arg 1 args in
    if is_some conf.refresh_location
    then none
    else if length uri == 0 || not (char_at uri 0 == b'/') || has_question uri || has_dollar uri
    then none
    else some (record conf { refresh_location = some uri; refresh_prefix = arg 2 args })
