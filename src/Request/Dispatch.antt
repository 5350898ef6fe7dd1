-- ===== src/Request/Dispatch.antt =====
-- `ngx_http_cache_purge_dispatch`, and what its guard is for.
use ngx_cache_purge.Prelude.{
  ℕ, Bool, true, false, ◌&&◌, ◌||◌, not, List, Option, none, some, ltb, leb, if◌then◌else◌, length,
}
use ngx_cache_purge.Ngx.{Text, Slab, Rc, ok, again, declined, abort}
use ngx_cache_purge.Generation.State.{logical_key_max, ends_in_star}
use ngx_cache_purge.Queue.State.{Queue}
use ngx_cache_purge.Queue.Enqueue.{Request, Namespace, enqueue, key_max_len, is_namespaced}
use ngx_cache_purge.Reply.Catalog.{
  ResultCode, accepted, invalidated, invalid_selector, internal_error,
}

-- `ngx_http_cache_purge_is_partial`, for the one key of a request.
abbrev pub is_partial : List ℕ → Bool
is_partial key = ends_in_star key

-- What dispatch reads besides the request for the queue: `refresh` of the location, and
-- `vary_aware` and `background_purge` of the module.
pub record Mode : Type 0 where
  pub refresh : Bool
  pub vary_aware : Bool
  pub background : Bool

-- What becomes of the request: a reply, `NGX_HTTP_CLOSE`, a wait for the queue, or one of the
-- purges that are done at once.
pub data Outcome : Type 0 where
  answered : ResultCode → Outcome
  closed deferred refresh_start purge_all purge_partial purge_exact : Outcome

-- The guard on the length of the key.
unfoldable pub is_too_long : {T : Type 0} → Mode → Option (Namespace T) → Request → Bool
is_too_long m (some ns) r = ltb logical_key_max (length r.key)
is_too_long m none r =
    not r.purge_all
    && (is_partial r.key && ltb key_max_len (length r.key)
        || not (is_partial r.key) && m.vary_aware && leb key_max_len (length r.key))

-- The reply to a request that the queue took, and to one that it refused.
abbrev pub success : {T : Type 0} → Option (Namespace T) → ResultCode
success ns = if is_namespaced ns then invalidated else accepted

unfoldable pub after_enqueue : {T : Type 0} → Option (Namespace T) → Rc → Outcome
after_enqueue ns ok = answered (success ns)
after_enqueue ns again = deferred
after_enqueue ns abort = closed
after_enqueue ns declined = answered invalid_selector
after_enqueue ns _ = answered internal_error

abbrev pub is_background : {T : Type 0} → Mode → Option (Namespace T) → Request → Bool
is_background m ns r = is_namespaced ns || m.background && (r.purge_all || is_partial r.key)

module _ {S T : Type 0} (text : Text) (caseless : Bool) (slab : Slab S) (ns_slab : Slab T) where
  unfoldable pub dispatch :
      Mode → Request → Option (Namespace T) → Queue S → Outcome × Queue S × Option (Namespace T)
  dispatch m r ns q =
      let out = enqueue text caseless slab ns_slab r ns q in
      if is_too_long m ns r
      then (answered invalid_selector, q, ns)
      else if m.refresh
      then (refresh_start, q, ns)
      else if is_background m ns r
      then (after_enqueue ns out.rc, out.queue, out.namespace)
      else if r.purge_all
      then (purge_all, q, ns)
      else if is_partial r.key
      then (purge_partial, q, ns)
      else (purge_exact, q, ns)

abbrev pub is_declined : Rc → Bool
is_declined declined = true
is_declined _ = false
