-- ===== src/Queue/Process.antt =====
-- `ngx_http_cache_purge_process_queue`, without a thread pool: a worker claims a task, walks its
-- path in slices, and completes the task. The walk is the client's part of an interface here.
use ngx_cache_purge.Prelude.{
  ℕ, zero, suc, ◌+◌, ◌-◌, ◌%◌, Bool, true, false, ◌&&◌, ◌||◌, not, List, [], ◌∷◌, Option, none,
  some, ltb, ◌==◌, if◌then◌else◌, min, u64, is_empty, bytes_eq,
}
use ngx_cache_purge.Ngx.{Slab, is_again, Rc, ok, again, busy}
use ngx_cache_purge.Generation.State.{ends_in_star, drop_last}
use ngx_cache_purge.Queue.Clock.{minus64, is_negative}
use ngx_cache_purge.Queue.Task.{
  Task, requeued, enqueued, enqueued_full, started, started_full, finished, retried, exhausted,
  deleted, delete_errors, scan_errors, deleted_bytes, as_count, Metric,
}
use ngx_cache_purge.Queue.State.{
  Queue, stat_add, insert_tail, oldest_after, remove_entry, at_addr, unlink,
}

-- The walk of a cache directory (ngx_cache_purge_walk.c) in a state `C`: `start` is
-- `ngx_http_cache_purge_walk_init` for the task, with its selector and its namespace, `step` one bounded
-- `ngx_http_cache_purge_walk_step`, `close` gives up the open directories, and the others read the
-- context's counters.
pub record Walker (C : Type 0) : Type 0 where
  pub start : Task → List ℕ → Option (List ℕ) → C
  pub step : C → Rc × C
  pub close : C → C
  pub deleted : C → ℕ
  pub delete_errors : C → ℕ
  pub scan_errors : C → ℕ
  pub bytes : C → ℕ

-- `ngx_cache_purge_work`: `item` is the address of the claimed task.
pub record Work (C : Type 0) : Type 0 where
  pub item : Option ℕ
  pub cancelable : Bool
  pub cursor : C
  pub complete : Bool

-- The worker, and what it meets in one call: whether each `trylock` succeeds, and what the memory at
-- an address holds that is no active task's.
pub record Worker : Type 0 where
  pub pid : ℕ
  pub slot : ℕ
  pub now : ℕ
  pub exiting : Bool
  pub claim_locked : Bool
  pub finish_locked : Bool
  pub stray : ℕ → Task
  pub namespaces : List (List ℕ)

pub record Processed (S C : Type 0) : Type 0 where
  pub rc : Rc
  pub queue : Queue S
  pub work : Work C

-- `item->retry_at == 0 || (ngx_msec_int_t) (ngx_current_msec - item->retry_at) >= 0`.
unfoldable pub is_due : ℕ → Task → Bool
is_due now t = t.retry_at == 0 || not (is_negative (minus64 now t.retry_at))

-- The rotation, `n` rounds being left: the list as it is then, and whether its head is due.
unfoldable pub rotate : ℕ → ℕ → List Task → List Task × Bool
rotate now zero pending = (pending, false)
rotate now (suc n) [] = ([], false)
rotate now (suc n) (t ∷ pending) =
    let rest = rotate now n (insert_tail t pending) in
    if is_due now t then (t ∷ pending, true) else rest

unfoldable pub mem_name : List ℕ → List (List ℕ) → Bool
mem_name name [] = false
mem_name name (n ∷ names) = bytes_eq n name || mem_name name names

-- The key behind its first byte, without a star at its end.
unfoldable pub selected : Task → List ℕ
selected t = elim t.key [ [] ↦ [] | c ∷ key ↦ if ends_in_star key then drop_last key else key ]

abbrev pub is_logical : Task → Bool
is_logical t = elim t.key [ [] ↦ false | c ∷ key ↦ c == b'G' ]

-- `work->ctx.key_partial` with its length: a task of a namespace walks over every key.
unfoldable pub selector : Task → List ℕ
selector t = if is_logical t then [] else selected t

-- `work->ctx.namespace`, if it is configured.
unfoldable pub namespace_of : List (List ℕ) → Task → Option (List ℕ)
namespace_of namespaces t =
    if is_logical t && mem_name (selected t) namespaces then some (selected t) else none

-- A task of a namespace that is no longer configured has nothing to walk.
unfoldable pub is_orphan : List (List ℕ) → Task → Bool
is_orphan namespaces t = is_logical t && not (mem_name (selected t) namespaces)

abbrev pub head_enqueued_at : List Task → ℕ → ℕ
head_enqueued_at [] oldest = oldest
head_enqueued_at (t ∷ ts) oldest = t.enqueued_at

-- `retry_at` after the given number of retries.
abbrev pub retry_delay : ℕ → ℕ
retry_delay retries = if retries == 0 then 100 else if retries == 1 then 1000 else 10000

module _ {S C : Type 0} (slab : Slab S) (walker : Walker C) (w : Worker) where
  abbrev count : Task → Metric → ℕ → (ℕ → ℕ → Metric → ℕ) → ℕ → ℕ → Metric → ℕ
  count t field n stats = stat_add (some w.slot) (some t.path) field n stats

  abbrev pub claimed_task : Queue S → Task → Task
  claimed_task q t = record t {
    retry_at = 0;
    running = true;
    owner = w.pid;
    owner_slot = w.slot;
    owner_epoch = q.epochs w.slot;
  }

  -- The head `t` of the pending list becomes active.
  unfoldable pub claim_head : Task → List Task → Queue S → Queue S
  claim_head t rest q = record q {
    pending = rest;
    active = insert_tail (claimed_task q t) q.active;
    size = q.size - 1;
    running = q.running + 1;
    oldest = head_enqueued_at rest q.oldest;
    stats = count t started_full (as_count t.purge_all) (count t started 1 q.stats);
  }

  abbrev begin : Task → Work C → Work C
  begin t work = record {
    item = some t.addr;
    cancelable = false;
    cursor = walker.start t (selector t) (namespace_of w.namespaces t);
    complete = is_orphan w.namespaces t;
  }

  -- The rotated list, whose head is due.
  unfoldable pub claim_due : List Task → Queue S → Work C → Processed S C
  claim_due [] q work = record { rc = busy; queue = q; work = work }
  claim_due (t ∷ rest) q work = record {
    rc = again;
    queue = claim_head t rest q;
    work = begin t work;
  }

  -- A worker without a task looks for one that is due among the first 64. `NGX_AGAIN` stands for
  -- going on with the task.
  unfoldable pub claim : Bool → Queue S → Work C → Processed S C
  claim final q work =
      if final || w.exiting
      then record { rc = ok; queue = q; work = work }
      else if not w.claim_locked
      then record { rc = busy; queue = q; work = work }
      else if is_empty q.pending
      then record { rc = ok; queue = q; work = work }
      else (let (pending, due) = rotate w.now (min q.size 64) q.pending in
          if not due
          then record { rc = busy; queue = record q { pending = pending }; work = work }
          else claim_due pending q work)

  -- The decision about a task whose pass is over: whether it is queued again, with its retries.
  unfoldable pub settle : Bool → C → Task → Bool × Task
  settle complete c t =
      let retry = ltb 0 (walker.scan_errors c) || ltb 0 (walker.delete_errors c) in
      if t.rerun || not complete
      then (true, record t { retries = 0; retry_at = 0 })
      else if retry && ltb t.retries 3
      then (
        true,
        record t { retry_at = (w.now + retry_delay t.retries) % u64; retries = t.retries + 1 },
      )
      else (false, t)

  -- Whether the pass counts as a retry, or as the last of the retries.
  unfoldable pub settle_stats : Bool → C → Task → (ℕ → ℕ → Metric → ℕ) → ℕ → ℕ → Metric → ℕ
  settle_stats complete c t stats =
      let retry = ltb 0 (walker.scan_errors c) || ltb 0 (walker.delete_errors c) in
      if t.rerun || not complete
      then stats
      else if retry && ltb t.retries 3
      then count t retried 1 stats
      else if retry
      then count t exhausted 1 stats
      else stats

  abbrev pass_stats : C → Task → (ℕ → ℕ → Metric → ℕ) → ℕ → ℕ → Metric → ℕ
  pass_stats c t stats = count t deleted_bytes (walker.bytes c) (
      count t scan_errors (walker.scan_errors c) (
        count t delete_errors (walker.delete_errors c)
          (count t deleted (walker.deleted c) (count t finished 1 stats))))

  -- The end of a pass over the task `t`, under the lock.
  unfoldable pub complete_task : Bool → C → Task → Queue S → Queue S
  complete_task complete c t q =
      let (replay, t') = settle complete c t in
      let stats = pass_stats c t (settle_stats complete c t q.stats) in
      let q' = record q {
        running = q.running - 1;
        active = unlink t.addr q.active;
        stats = stats;
      } in
      if replay
      then record q' {
        pending = insert_tail (requeued w.now t') q.pending;
        oldest = oldest_after w.now q.pending q.oldest;
        size = q.size + 1;
        stats = count t enqueued_full (as_count t.purge_all) (count t enqueued 1 stats);
      }
      else record q' { index = remove_entry t.addr q.index; shpool = slab.free t.addr q.shpool }

  -- What `item` points at.
  unfoldable pub item_at : ℕ → List Task → Task
  item_at addr active = elim (at_addr addr active) [ none ↦ w.stray addr | some t ↦ t ]

  -- With the lock.
  unfoldable pub finish : ℕ → Queue S → Work C → Processed S C
  finish addr q work = record {
    rc = again;
    queue = complete_task work.complete work.cursor (item_at addr q.active) q;
    work = record work { item = none; cancelable = true };
  }

  -- One slice of the walk, unless it is complete, and then the completion.
  unfoldable pub advance : Bool → ℕ → Queue S → Work C → Processed S C
  advance true addr q work = finish addr q (record work { cursor = walker.close work.cursor })
  advance false addr q work =
      let (rc, cursor) =
        if work.complete
        then (let same : Rc × C = (ok, work.cursor) in same)
        else walker.step work.cursor in
      if is_again rc
      then record { rc = busy; queue = q; work = record work { cursor = cursor } }
      else (let work' = record work { cursor = cursor; complete = true } in
          if w.finish_locked
          then finish addr q work'
          else record { rc = busy; queue = q; work = work' })

  -- A call with a claimed task goes on with it; any other is over.
  unfoldable pub go_on : Bool → Processed S C → Processed S C
  go_on final p = elim p.work.item [ none ↦ p | some addr ↦ advance final addr p.queue p.work ]

  -- One call, `final` being the last one of a worker that exits.
  unfoldable pub process_queue : Bool → Queue S → Work C → Processed S C
  process_queue final q work = elim work.item [
    | some addr ↦ advance final addr q work
    | none ↦ go_on final (claim final q work)
  ]
