-- ===== src/Request/Init.antt =====
-- The key of a request: `ngx_http_cache_purge_init`, `ngx_http_cache_purge_init_response`, and the
-- content handlers of the protocols up to `ngx_http_cache_purge_dispatch`.
use ngx_cache_purge.Prelude.{
  ℕ, ◌≤◌, ◌≡◌, ◌∙◌, ap, refl, Bool, ◌&&◌, ◌||◌, not, List, Option, none, some, ◌==◌, leb,
  if◌then◌else◌, length, bytes_eq, eq_of_bytes_eq, Bool-cases, ◌⊎◌, inl, inr, arith,
}
use ngx_cache_purge.Ngx.{Text}
use ngx_cache_purge.Generation.State.{is_some, logical_key_max}
use ngx_cache_purge.Generation.Snapshot.{RequestKeys, KeyResult, KeyCall, keys, generation_key}
use ngx_cache_purge.Generation.Snapshot.Stable.{generation_key-Shows}
use ngx_cache_purge.Reply.Catalog.{
  ResultCode, internal_error, invalid_selector, key_mismatch, cache_unavailable,
}
use ngx_cache_purge.Request.Entry.{Cache, Upstream, found, cache_get, find_cache}

-- `ngx_http_discard_request_body`: done, a status of HTTP, or another code.
pub data Discarded : Type 0 where
  discarded discard_fails : Discarded
  status : ℕ → Discarded

Discarded-cases :
    (b : Discarded) → (b ≡ discarded) ⊎ (b ≡ discard_fails) ⊎ ((n : ℕ) × (b ≡ status n))
Discarded-cases discarded = inl refl
Discarded-cases discard_fails = inr (inl refl)
Discarded-cases (status n) = inr (inr (n, refl))

-- What the initialisation needs: the body, memory for the cache, the keys and the key, the call
-- for the key of the namespace if the location has one, and the value of the native key, which is
-- evaluated last.
pub record InitCall : Type 0 where
  pub body : Discarded
  pub cache_room : Bool
  pub keys_room : Bool
  pub key_room : Bool
  pub namespace : Option KeyCall
  pub native_key : Option (List ℕ)

-- `NGX_OK` with the key of the request, or the failure.
pub data InitResult : Type 0 where
  ready : List ℕ → InitResult
  rejected : ℕ → InitResult
  busy declined failed : InitResult

-- The native key has to be the encoded key; the request goes on with the logical one.
unfoldable pub match_key : KeyResult → Option (List ℕ) → InitResult
match_key KeyResult.declined native = busy
match_key KeyResult.error native = failed
match_key (keys logical encoded) none = failed
match_key (keys logical encoded) (some key) =
    if not (length key == length encoded) || not (bytes_eq key encoded)
    then declined
    else ready logical

match_key_ready :
    (r : KeyResult) (native : Option (List ℕ)) (key : List ℕ)
    → match_key r native ≡ ready key
    → (encoded : List ℕ) × (r ≡ keys key encoded) × (native ≡ some encoded)
unfolding match_key
match_key_ready KeyResult.declined native key h = absurd (ground (arith, h))
match_key_ready KeyResult.error native key h = absurd (ground (arith, h))
match_key_ready (keys l e) none key h = absurd (ground (arith, h))
match_key_ready (keys l e) (some k) key h = elim (Bool-cases (bytes_eq k e)) [
  | inr other ↦ absurd (ground (arith, other, h))
  | inl same ↦ (e, ap (λ x. keys x e) (ground (arith, same, h)), ap some (eq_of_bytes_eq k e same))
]

module _ (text : Text) where
  unfoldable pub init : InitCall → Option RequestKeys → InitResult × Option RequestKeys
  init call seen = elim call.body [
    | status n ↦ (rejected n, seen)
    | discard_fails ↦ (failed, seen)
    | discarded ↦
        if not (call.cache_room && call.keys_room && call.key_room)
        then (failed, seen)
        else elim call.namespace [
          | none ↦ elim call.native_key [ none ↦ (failed, seen) | some key ↦ (ready key, seen) ]
          | some ns ↦
              (let (result, seen') = generation_key text ns seen in
                (match_key result call.native_key, seen'))
        ]
  ]

  init_namespace :
      (call : InitCall) (ns : KeyCall) (seen seen' : Option RequestKeys) (key : List ℕ)
      → call.namespace ≡ some ns
      → init call seen ≡ (ready key, seen')
      → (match_key (generation_key text ns seen).0 call.native_key ≡ ready key)
        × ((generation_key text ns seen).1 ≡ seen')
  unfolding init
  init_namespace call ns seen seen' key space h = elim (Discarded-cases call.body) [
    | inr (inl e) ↦ absurd (ground (arith, e, h))
    | inr (inr (n, e)) ↦ absurd (ground (arith, e, h))
    | inl e ↦ elim (Bool-cases (call.cache_room && call.keys_room && call.key_room)) [
      | inr full ↦ absurd (ground (arith, e, full, h))
      | inl room ↦ (ground (arith, e, room, space, h), ground (arith, e, room, space, h))
    ]
  ]

  -- Where a location has a namespace, a key that the initialisation gives is the logical key of the
  -- namespace, it is within the limit, and the native key is the encoded one.
  pub init_ready :
      (call : InitCall) (ns : KeyCall) (seen seen' : Option RequestKeys) (key : List ℕ)
      → call.namespace ≡ some ns
      → init call seen ≡ (ready key, seen')
      → (length key ≤ logical_key_max)
        × (ns.value ≡ some key)
        × (encoded : List ℕ) × (call.native_key ≡ some encoded)
        × (generation_key text ns seen ≡ (keys key encoded, seen'))
  init_ready call ns seen seen' key space h =
      let (matched, kept) = init_namespace call ns seen seen' key space h in
      let out = generation_key text ns seen in
      let (encoded, result, native) = match_key_ready out.0 call.native_key key matched in
      let whole : out ≡ (keys key encoded, seen') =
        ap (λ r. (r, out.1)) result ∙ ap (λ x. (keys key encoded, x)) kept in
      let (value, size, _) = generation_key-Shows text ns key encoded seen seen' whole in
      (size, value, encoded, native, whole)

-- The reply that a handler gives instead of going on: a status of nginx, or a result.
pub data Refusal : Type 0 where
  by_core : ℕ → Refusal
  by_module : ResultCode → Refusal

-- A body that nginx rejected has a status of 400 or more.
unfoldable pub init_response : InitResult → Refusal
init_response (rejected n) = if leb 400 n then by_core n else by_module internal_error
init_response busy = by_module invalid_selector
init_response declined = by_module key_mismatch
init_response _ = by_module internal_error

-- The end of a content handler: a reply, or the cache and the key to dispatch with.
pub data Handled : Type 0 where
  refused : Refusal → Handled
  to_dispatch : Cache → List ℕ → Handled

unfoldable pub handed : Cache → InitResult → Handled
handed cache (ready key) = to_dispatch cache key
handed cache result = refused (init_response result)

module _ (text : Text) (same_bytes : List ℕ → List ℕ → ℕ → Bool) where
  unfoldable pub init_for : Cache → InitCall → Option RequestKeys → Handled × Option RequestKeys
  init_for cache call seen =
      let (result, seen') = init text call seen in (handed cache result, seen')

  -- `upstream_room`: `ngx_http_upstream_create` succeeds.
  unfoldable pub fastcgi_handler :
      Bool → Upstream → InitCall → Option RequestKeys → Handled × Option RequestKeys
  fastcgi_handler upstream_room u call seen =
      if not upstream_room
      then (refused (by_module internal_error), seen)
      else elim (cache_get same_bytes u) [
        | found cache ↦ init_for cache call seen
        | _ ↦ (refused (by_module cache_unavailable), seen)
      ]

  -- The handlers of SCGI and uwsgi repeat the one of FastCGI on their own settings.
  unfoldable pub scgi_handler :
      Bool → Upstream → InitCall → Option RequestKeys → Handled × Option RequestKeys
  scgi_handler upstream_room u call seen =
      if not upstream_room
      then (refused (by_module internal_error), seen)
      else elim (cache_get same_bytes u) [
        | found cache ↦ init_for cache call seen
        | _ ↦ (refused (by_module cache_unavailable), seen)
      ]

  unfoldable pub uwsgi_handler :
      Bool → Upstream → InitCall → Option RequestKeys → Handled × Option RequestKeys
  uwsgi_handler upstream_room u call seen =
      if not upstream_room
      then (refused (by_module internal_error), seen)
      else elim (cache_get same_bytes u) [
        | found cache ↦ init_for cache call seen
        | _ ↦ (refused (by_module cache_unavailable), seen)
      ]

-- The separate location of the proxy: whether `proxy.enable` is set, its zone, the value of its
-- zone's name (as in `Upstream`), and the call with its key.
pub record Separate : Type 0 where
  pub enable : Bool
  pub zone : Option Cache
  pub value : Option (Option (List ℕ))
  pub call : InitCall

module _ (text : Text) (same_bytes : List ℕ → List ℕ → ℕ → Bool) where
  unfoldable pub separate_cache : Separate → List Cache → Handled ⊎ Cache
  separate_cache s caches = elim s.zone [
    | some cache ↦ inr cache
    | none ↦ elim s.value [
      | some (some val) ↦ elim (find_cache same_bytes val caches) [
        | none ↦ inl (refused (by_module cache_unavailable))
        | some cache ↦ inr cache
      ]
      | _ ↦ inl (refused (by_module internal_error))
    ]
  ]

  unfoldable pub proxy_handler :
      Separate → Bool → Upstream → InitCall → Option RequestKeys → Handled × Option RequestKeys
  proxy_handler s upstream_room u call seen =
      if not s.enable && (is_some s.zone || is_some s.value)
      then elim (separate_cache s u.caches) [
        | inl end ↦ (end, seen)
        | inr cache ↦ init_for text same_bytes cache s.call seen
      ]
      else fastcgi_handler text same_bytes upstream_room u call seen
