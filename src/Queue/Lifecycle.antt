-- ===== src/Queue/Lifecycle.antt =====
-- `ngx_http_cache_purge_init_worker` and `ngx_http_cache_purge_exit_worker` on the shared queue. The
-- timer and the task of a thread pool are nginx's.

use ngx_cache_purge.Prelude.{
  ℕ, ◌+◌, ◌-◌, ◌≤◌, ◌<◌, ◌≡◌, Bool, true, false, ◌&&◌, ◌||◌, not, List, [], ◌∷◌, Option, none, some,
  leb, ◌==◌, if◌then◌else◌, u64, arith, Option-cases, inl, inr,
}
use ngx_cache_purge.Ngx.{Slab, Rc, ok, error}
use ngx_cache_purge.Queue.Task.{Task, Metric, waiting}
use ngx_cache_purge.Queue.State.{CachePath, Queue, update, update_metric}
use ngx_cache_purge.Queue.Recover.{is_owned}
use ngx_cache_purge.Queue.Process.{Walker, Work, Worker, process_queue}
use ngx_cache_purge.Queue.Counts.{IsCounted}
use ngx_cache_purge.Queue.Claimed.{HasItem}
use ngx_cache_purge.Queue.Counts.Passes.{process_queue-IsCounted}

-- A starting process: whether it is a worker or the single process of an nginx with a purge queue,
-- its slot (0 for a single process), and its number.
pub record Start : Type 0 where
  pub is_worker : Bool
  pub slot : ℕ
  pub pid : ℕ

-- The slot that the process has then, and the queue.
pub record Started (S : Type 0) : Type 0 where
  pub rc : Rc
  pub mine : Option ℕ
  pub queue : Queue S

-- `stats->value[NGX_PURGE_WAITING] = 0` in the slot, for each path.
unfoldable pub clear_waiting : ℕ → List CachePath → (ℕ → ℕ → Metric → ℕ) → ℕ → ℕ → Metric → ℕ
clear_waiting slot [] stats = stats
clear_waiting slot (p ∷ paths) stats =
    clear_waiting slot paths (
      update stats p.addr
        (update (stats p.addr) slot (update_metric (stats p.addr slot) waiting 0)))

abbrev pub has_slot : Option ℕ → ℕ → Bool
has_slot none slot = false
has_slot (some s) slot = s == slot

-- `max_processes` is `NGX_MAX_PROCESSES`.
module _ {S : Type 0} (max_processes : ℕ) where
  -- A process that did not have the slot before begins a new epoch of it.
  unfoldable pub is_new : Start → Option ℕ → Queue S → Bool
  is_new s mine q = not (has_slot mine s.slot) || not (q.owners s.slot == s.pid)

  abbrev pub own : Start → Bool → Queue S → Queue S
  own s new q = record q {
    epochs = if new then update q.epochs s.slot (q.epochs s.slot + 1) else q.epochs;
    owners = update q.owners s.slot s.pid;
    probes = update q.probes s.slot 0;
    stats = clear_waiting s.slot q.paths q.stats;
  }

  unfoldable pub init_worker : Start → Option ℕ → Queue S → Started S
  init_worker s mine q =
      if not s.is_worker
      then record { rc = ok; mine = mine; queue = q }
      else if leb max_processes s.slot
      then record { rc = error; mine = mine; queue = q }
      else if is_new s mine q && q.epochs s.slot == u64 - 1
      then record { rc = error; mine = mine; queue = q }
      else record { rc = ok; mine = some s.slot; queue = own s (is_new s mine q) q }

abbrev pub release : {S : Type 0} → Option ℕ → Queue S → Queue S
release none q = q
release (some slot) q = record q {
  owners = update q.owners slot 0;
  probes = update q.probes slot 0;
}

module _ {S C : Type 0} (slab : Slab S) (walker : Walker C) (w : Worker) where
  -- The last pass over a claimed task, and then the slot is given up.
  unfoldable pub exit_worker : Option ℕ → Queue S → Work C → Queue S
  exit_worker mine q work = elim work.item [
    | none ↦ release mine q
    | some addr ↦ release mine (process_queue slab walker w true q work).queue
  ]

module _ {S : Type 0} (max_processes : ℕ) where
  -- The start of a process keeps the counts.
  pub init_worker-IsCounted :
      (s : Start) (mine : Option ℕ) (q : Queue S)
      → IsCounted q
      → IsCounted (init_worker max_processes s mine q).queue
  unfolding init_worker
  init_worker-IsCounted s mine q h = ground arith

  -- No claim from before the start of a process in a slot outlives it: the recovery takes the tasks
  -- back that an earlier process claimed there, also one of the same number.
  pub not-is_owned_after_init :
      (process_alive : ℕ → Bool) (s : Start) (mine : Option ℕ) (q : Queue S) (t : Task)
      → (init_worker max_processes s mine q).rc ≡ ok
      → s.is_worker ≡ true
      → is_new max_processes s mine q ≡ true
      → t.owner_slot ≡ s.slot
      → t.owner_epoch ≤ q.epochs s.slot
      → is_owned process_alive none 0 (init_worker max_processes s mine q).queue t ≡ false
  unfolding init_worker is_owned
  not-is_owned_after_init process_alive s mine q t e role new slot epoch = ground arith

module _ {S C : Type 0} (slab : Slab S) (walker : Walker C) (w : Worker) where
  release-IsCounted : (mine : Option ℕ) (q : Queue S) → IsCounted q → IsCounted (release mine q)
  release-IsCounted none q h = h
  release-IsCounted (some slot) q h = ground (arith, h)

  -- The end of a process keeps the counts, with the last pass over a task in it that is still active.
  pub exit_worker-IsCounted :
      (mine : Option ℕ) (q : Queue S) (work : Work C)
      → HasItem work.item q.active
      → IsCounted q
      → IsCounted (exit_worker slab walker w mine q work)
  unfolding exit_worker
  exit_worker-IsCounted mine q work there h = elim (Option-cases work.item) [
    | inl e ↦ rw (e, exit_worker) (release-IsCounted mine q h)
    | inr (addr, e) ↦
        rw (e, exit_worker)
          (release-IsCounted mine _ (process_queue-IsCounted slab walker w true q work there h))
  ]

  -- After its end a process owns no task.
  pub not-is_owned_after_exit :
      (process_alive : ℕ → Bool) (slot : ℕ) (q : Queue S) (work : Work C) (t : Task)
      → t.owner_slot ≡ slot
      → 0 < t.owner
      → is_owned process_alive none 0 (exit_worker slab walker w (some slot) q work) t ≡ false
  unfolding exit_worker is_owned
  not-is_owned_after_exit process_alive slot q work t e pos = elim (Option-cases work.item) [
    | inl n ↦ rw (n, exit_worker) (ground arith)
    | inr (addr, n) ↦ rw (n, exit_worker) (ground arith)
  ]
