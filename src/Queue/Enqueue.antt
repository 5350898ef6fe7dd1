-- ===== src/Queue/Enqueue.antt =====
-- `ngx_http_cache_purge_enqueue`.
use ngx_cache_purge.Prelude.{
  ℕ, ◌+◌, Bool, true, false, ◌&&◌, not, List, [], ◌∷◌, Option, none, some, ltb, leb, if◌then◌else◌,
  length,
}
use ngx_cache_purge.Ngx.{Text, Slab, Rc, is_ok, ok, error, again, declined, abort}
use ngx_cache_purge.Generation.State.{Generation, invalidate, logical_key_max}
use ngx_cache_purge.Queue.Task.{
  Task, Metric, enqueued, enqueued_full, deduplicated, invalidated, as_count,
}
use ngx_cache_purge.Queue.Paths.{find_path}
use ngx_cache_purge.Queue.State.{Queue, stat_add, find, modify, insert_tail, oldest_after}

-- A namespace with its shared state and the pool of its zone.
pub record Namespace (T : Type 0) : Type 0 where
  pub name : List ℕ
  pub state : Generation
  pub pool : T

-- What a request and the worker bring: whether there is a queue, whether the worker is shutting
-- down, whether the two locks
-- are free, the worker's slot, the time, the settings of the location, and the cache's directory.
pub record Request : Type 0 where
  pub configured : Bool
  pub exiting : Bool
  pub locked : Bool
  pub ns_locked : Bool
  pub slot : Option ℕ
  pub now : ℕ
  pub protection : ℕ
  pub pool_name : List ℕ
  pub cache_path : List ℕ
  pub key : List ℕ
  pub purge_all : Bool
  pub expected : Option (List ℕ)

pub record Admitted (S T : Type 0) : Type 0 where
  pub rc : Rc
  pub queue : Queue S
  pub namespace : Option (Namespace T)

-- `NGX_CACHE_PURGE_KEY_MAX_LEN`.
abbrev pub key_max_len : ℕ
key_max_len = 512

-- `sizeof(ngx_http_cache_purge_queue_item_t)` where pointers have 8 bytes.
abbrev pub sizeof_item : ℕ
sizeof_item = 176

-- The key of the index: one task for each namespace, or for each selector.
unfoldable pub lookup_key : {T : Type 0} → Option (Namespace T) → Request → List ℕ
lookup_key none r = b'L' ∷ (if r.purge_all then [] else r.key)
lookup_key (some ns) r = b'G' ∷ ns.name

unfoldable pub key_too_long : {T : Type 0} → Option (Namespace T) → Request → Bool
key_too_long none r = not r.purge_all && ltb key_max_len (length r.key)
key_too_long (some ns) r = ltb logical_key_max (length r.key)

-- A duplicate: a running task is to be run once more, a pending one takes the newest settings,
-- and either has a fresh window of retries.
unfoldable pub touched : ℕ → Task → Task
touched protection t =
    let t' =
      if t.running
      then record t { rerun = true; next_protection = some protection }
      else record t { protection = protection } in
    record t' { retries = 0; retry_at = 0 }

abbrev pub is_namespaced : {T : Type 0} → Option (Namespace T) → Bool
is_namespaced none = false
is_namespaced (some ns) = true

module _ {S T : Type 0} (text : Text) (caseless : Bool) (slab : Slab S) (ns_slab : Slab T) where
  -- The generation of the namespace, if there is one; `NGX_OK` without one.
  unfoldable pub invalidate_namespace : Request → Option (Namespace T) → Rc × Option (Namespace T)
  invalidate_namespace r none = (ok, none)
  invalidate_namespace r (some ns) =
      let out =
        invalidate text ns_slab r.ns_locked ns.name r.key r.purge_all r.expected ns.state ns.pool in
      (out.rc, some (record ns { state = out.state; pool = out.pool }))

  abbrev count_invalidated :
      Request → Option (Namespace T) → ℕ → (ℕ → ℕ → Metric → ℕ) → ℕ → ℕ → Metric → ℕ
  count_invalidated r ns path stats =
      if is_namespaced ns then stat_add r.slot (some path) invalidated 1 stats else stats

  -- The branch of a node that was found.
  unfoldable pub deduplicate : Request → Option (Namespace T) → ℕ → ℕ → Queue S → Admitted S T
  deduplicate r ns path addr q =
      let (rc, ns') = invalidate_namespace r ns in
      if not (is_ok rc) then record { rc = rc; queue = q; namespace = ns' } else record {
        rc = ok;
        queue = record q {
          pending = modify addr (touched r.protection) q.pending;
          active = modify addr (touched r.protection) q.active;
          stats = count_invalidated r ns path (stat_add r.slot (some path) deduplicated 1 q.stats);
        };
        namespace = ns';
      }

  abbrev pub new_task : Request → Option (Namespace T) → ℕ → ℕ → Task
  new_task r ns path addr = record {
    addr = addr;
    key = lookup_key ns r;
    path = path;
    pool_name = r.pool_name;
    purge_all = r.purge_all;
    running = false;
    rerun = false;
    owner = 0;
    owner_slot = 0;
    owner_epoch = 0;
    enqueued_at = r.now;
    retry_at = 0;
    retries = 0;
    protection = r.protection;
    next_protection = none;
  }

  -- The branch of a new task, for which memory has been found at `addr`.
  unfoldable pub admit : Request → Option (Namespace T) → ℕ → ℕ → S → Queue S → Admitted S T
  admit r ns path addr pool q =
      let (rc, ns') = invalidate_namespace r ns in
      if not (is_ok rc)
      then record { rc = rc; queue = record q { shpool = slab.free addr pool }; namespace = ns' }
      else record {
        rc = ok;
        queue = record q {
          pending = insert_tail (new_task r ns path addr) q.pending;
          size = q.size + 1;
          oldest = oldest_after r.now q.pending q.oldest;
          index = record { path = path; key = lookup_key ns r; addr = addr } ∷ q.index;
          stats = count_invalidated r ns path (
              stat_add r.slot (some path) enqueued_full (as_count r.purge_all)
                (stat_add r.slot (some path) enqueued 1 q.stats));
          shpool = pool;
        };
        namespace = ns';
      }

  -- From the search of the tree on, for the path at `path`.
  unfoldable pub enqueue_at : Request → Option (Namespace T) → ℕ → Queue S → Admitted S T
  enqueue_at r ns path q = elim (find path (lookup_key ns r) q.index) [
    | some addr ↦ deduplicate r ns path addr q
    | none ↦
        if leb q.max_size (q.size + q.running)
        then record { rc = again; queue = q; namespace = ns }
        else elim (slab.calloc (sizeof_item + length (lookup_key ns r) + 1 + length r.pool_name)
            q.shpool) [
              | none ↦ record { rc = again; queue = q; namespace = ns }
              | some (addr, pool) ↦ admit r ns path addr pool q
            ]
  ]

  unfoldable pub enqueue : Request → Option (Namespace T) → Queue S → Admitted S T
  enqueue r ns q =
      if not r.configured
      then record { rc = error; queue = q; namespace = ns }
      else if r.exiting
      then record { rc = abort; queue = q; namespace = ns }
      else if key_too_long ns r
      then record { rc = declined; queue = q; namespace = ns }
      else if not r.locked
      then record { rc = again; queue = q; namespace = ns }
      else elim (find_path text caseless r.cache_path q.paths) [
        | none ↦ record { rc = again; queue = q; namespace = ns }
        | some path ↦ enqueue_at r ns path q
      ]
