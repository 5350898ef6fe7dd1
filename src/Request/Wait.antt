-- ===== src/Request/Wait.antt =====
-- A request that waits for the queue: `ngx_http_cache_purge_defer`, `_request_handler` and
-- `_request_cleanup`, with the gauge of waiting requests.
use ngx_cache_purge.Prelude.{
  ℕ, Bool, true, false, ◌||◌, not, List, [], ◌∷◌, Option, none, some, if◌then◌else◌,
}
use ngx_cache_purge.Ngx.{Text, Slab, is_again}
use ngx_cache_purge.Queue.Task.{overflow}
use ngx_cache_purge.Queue.State.{Queue, stat_add, stat_wait}
use ngx_cache_purge.Queue.Paths.{find_path}
use ngx_cache_purge.Queue.Enqueue.{Request, Namespace, enqueue}
use ngx_cache_purge.Reply.Catalog.{internal_error}
use ngx_cache_purge.Request.Dispatch.{Outcome, answered, deferred, after_enqueue}

-- `ngx_http_cache_purge_request_t`: the path, whether its cleanup handler is set, and whether its
-- timer runs.
pub record Waiting : Type 0 where
  pub path : Option ℕ
  pub armed : Bool
  pub timer_set : Bool

-- What nginx says of the connection: the body is discarded already, there is something to read, and
-- the result of `ngx_handle_read_event`.
pub record Reading : Type 0 where
  pub discard_body : Bool
  pub ready : Bool
  pub handled : Bool

pub record Deferral (S : Type 0) : Type 0 where
  pub outcome : Outcome
  pub waiting : Option Waiting
  pub queue : Queue S

abbrev pub reads : Reading → Bool
reads d = d.discard_body || d.ready || d.handled

module _ {S : Type 0} (text : Text) (caseless : Bool) where
  abbrev pub count_wait : Option ℕ → Option ℕ → Queue S → Queue S
  count_wait slot path q = record q {
    stats = stat_add slot path overflow 1 (stat_wait slot path true q.stats);
  }

  -- `room`: `ngx_http_cleanup_add` succeeds.
  unfoldable pub defer : Bool → Reading → Option ℕ → List ℕ → Queue S → Deferral S
  defer room d slot cache_path q =
      let path = find_path text caseless cache_path q.paths in
      if not room
      then record { outcome = answered internal_error; waiting = none; queue = q }
      else if not (reads d)
      then record {
        outcome = answered internal_error;
        waiting = some (record { path = none; armed = false; timer_set = false });
        queue = q;
      }
      else record {
        outcome = deferred;
        waiting = some (record { path = path; armed = true; timer_set = true });
        queue = count_wait slot path q;
      }

  -- At the end of the request; only a cleanup whose handler is set runs.
  unfoldable pub request_cleanup : Option ℕ → Waiting → Queue S → Waiting × Queue S
  request_cleanup slot w q =
      (record w { timer_set = false }, record q { stats = stat_wait slot w.path false q.stats })

  unfoldable pub destroy : Option ℕ → Waiting → Queue S → Queue S
  destroy slot w q = if w.armed then (request_cleanup slot w q).1 else q

-- What a run of the timer leaves: no reply yet, or the reply.
pub record Retried (S T : Type 0) : Type 0 where
  pub reply : Option Outcome
  pub waiting : Waiting
  pub queue : Queue S
  pub namespace : Option (Namespace T)

module _ {S T : Type 0} (text : Text) (caseless : Bool) (slab : Slab S) (ns_slab : Slab T) where
  unfoldable pub request_handler : Request → Waiting → Option (Namespace T) → Queue S → Retried S T
  request_handler r w ns q =
      let out = enqueue text caseless slab ns_slab r ns q in
      let q' = out.queue in
      if is_again out.rc
      then record {
        reply = none;
        waiting = record w { timer_set = true };
        queue = q';
        namespace = out.namespace;
      }
      else record {
        reply = some (after_enqueue ns out.rc);
        waiting = record w { armed = false; timer_set = false };
        queue = record q' { stats = stat_wait r.slot w.path false q'.stats };
        namespace = out.namespace;
      }

  -- The rest of the life of a request that waits: some runs of its timer, the last of them maybe
  -- with a reply, and the end of the request.
  unfoldable pub live : List Request → Option ℕ → Waiting → Option (Namespace T) → Queue S → Queue S
  live [] slot w ns q = destroy text caseless slot w q
  live (r ∷ rs) slot w ns q =
      let t = request_handler r w ns q in
      let rest = live rs slot t.waiting t.namespace t.queue in
      if w.timer_set
      then (if t.waiting.armed then rest else destroy text caseless slot t.waiting t.queue)
      else destroy text caseless slot w q
