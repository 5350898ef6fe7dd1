-- ===== src/Queue/System.antt =====
-- All the processes on one queue: each part of the code that holds the lock of the queue is a step,
-- and the steps of the processes come in any order.
mod Tests
use ngx_cache_purge.Prelude.{
  ℕ, ◌≡◌, refl, Bool, true, false, Option, none, some, List, [], if◌then◌else◌, arith, Option-cases,
  inl, inr,
}
use ngx_cache_purge.Ngx.{Text, Slab, SlabLaws}
use ngx_cache_purge.Queue.State.{Queue}
use ngx_cache_purge.Queue.Enqueue.{Namespace, Request, enqueue}
use ngx_cache_purge.Queue.Claimed.{HasItem}
use ngx_cache_purge.Queue.Recover.{recover}
use ngx_cache_purge.Queue.Process.{Walker, Work, Worker, process_queue}
use ngx_cache_purge.Queue.Lifecycle.{
  Start, init_worker, exit_worker, release, init_worker-IsCounted, exit_worker-IsCounted,
}
use ngx_cache_purge.Queue.Counts.{IsCounted}
use ngx_cache_purge.Queue.Counts.Admission.{enqueue-IsCounted}
use ngx_cache_purge.Queue.Counts.Recovery.{recover-IsCounted}
use ngx_cache_purge.Queue.Counts.Passes.{process_queue-IsCounted}
use ngx_cache_purge.Queue.Index.{IsIndexed}
use ngx_cache_purge.Queue.Index.Admission.{enqueue-IsIndexed}
use ngx_cache_purge.Queue.Index.Recovery.{recover-IsIndexed}
use ngx_cache_purge.Queue.Index.Passes.{process_queue-IsIndexed}

module _ {S T C : Type 0} (text : Text) (caseless : Bool) (slab : Slab S) (ns_slab : Slab T)
    (walker : Walker C) (max_processes : ℕ) where
  -- A step of some process, with whatever it brings: its slot and time, the processes that it finds
  -- alive, the locks that it gets, and its own work. A worker that goes on with a task finds it among
  -- the active ones: that is a premise, as `process_alive` may say anything of a worker here.
  pub data Step : Queue S → Queue S → Type 0 where
    admission :
        (r : Request) (ns : Option (Namespace T)) (q : Queue S)
        → Step q (enqueue text caseless slab ns_slab r ns q).queue
    recovery :
        (process_alive : ℕ → Bool) (slot : Option ℕ) (now : ℕ) (locked : Bool) (q : Queue S)
        → Step q (recover process_alive slot now locked q)
    pass :
        (w : Worker) (final : Bool) (q : Queue S) (work : Work C)
        → HasItem work.item q.active
        → Step q (process_queue slab walker w final q work).queue
    arrival :
        (s : Start) (mine : Option ℕ) (q : Queue S)
        → Step q (init_worker max_processes s mine q).queue
    departure :
        (w : Worker) (mine : Option ℕ) (q : Queue S) (work : Work C)
        → HasItem work.item q.active
        → Step q (exit_worker slab walker w mine q work)

  pub data Reach (q : Queue S) : Queue S → Type 0 where
    here : Reach q q
    next : {q' q'' : Queue S} → Reach q q' → Step q' q'' → Reach q q''

init_worker-IsIndexed :
    {S : Type 0} (held : S → ℕ → Bool) (max_processes : ℕ) (s : Start) (mine : Option ℕ)
    (q : Queue S)
    → IsIndexed held q
    → IsIndexed held (init_worker max_processes s mine q).queue
unfolding init_worker
init_worker-IsIndexed held max_processes s mine q h = ground (arith, h)

release-IsIndexed :
    {S : Type 0} (held : S → ℕ → Bool) (mine : Option ℕ) (q : Queue S)
    → IsIndexed held q
    → IsIndexed held (release mine q)
release-IsIndexed held none q h = h
release-IsIndexed held (some slot) q h = ground (arith, h)

exit_worker-IsIndexed :
    {S C : Type 0} (slab : Slab S) (laws : SlabLaws slab) (walker : Walker C) (w : Worker)
    (mine : Option ℕ) (q : Queue S) (work : Work C)
    → HasItem work.item q.active
    → IsIndexed laws.held q
    → IsIndexed laws.held (exit_worker slab walker w mine q work)
unfolding exit_worker
exit_worker-IsIndexed slab laws walker w mine q work there h = elim (Option-cases work.item) [
  | inl e ↦ rw (e, exit_worker) (release-IsIndexed laws.held mine q h)
  | inr (addr, e) ↦
      rw (e, exit_worker)
        (release-IsIndexed laws.held mine _
          (process_queue-IsIndexed slab laws walker w true q work there h))
]

module _ {S T C : Type 0} (text : Text) (caseless : Bool) (slab : Slab S) (laws : SlabLaws slab)
    (ns_slab : Slab T) (walker : Walker C) (max_processes : ℕ) where
  -- What the processes rely on.
  abbrev pub IsSound : Queue S → Type 0
  IsSound q = IsCounted q × IsIndexed laws.held q

  Step-IsSound :
      {q q' : Queue S}
      → Step text caseless slab ns_slab walker max_processes q q'
      → IsSound q
      → IsSound q'
  Step-IsSound (admission r ns q) h = (
    enqueue-IsCounted text caseless slab ns_slab r ns q h.0,
    enqueue-IsIndexed text caseless slab ns_slab laws r ns q h.1,
  )
  Step-IsSound (recovery process_alive slot now locked q) h = (
    recover-IsCounted process_alive slot now locked q h.0,
    recover-IsIndexed laws.held process_alive slot now locked q h.1,
  )
  Step-IsSound (pass w final q work there) h = (
    process_queue-IsCounted slab walker w final q work there h.0,
    process_queue-IsIndexed slab laws walker w final q work there h.1,
  )
  Step-IsSound (arrival s mine q) h = (
    init_worker-IsCounted max_processes s mine q h.0,
    init_worker-IsIndexed laws.held max_processes s mine q h.1,
  )
  Step-IsSound (departure w mine q work there) h = (
    exit_worker-IsCounted slab walker w mine q work there h.0,
    exit_worker-IsIndexed slab laws walker w mine q work there h.1,
  )

  -- Whatever the processes do on a queue, in whichever order they get its lock, its counts stay
  -- right and its index in step with its tasks, as long as every worker that goes on with a task
  -- finds it among the active ones.
  pub Reach-IsSound :
      {q q' : Queue S}
      → Reach text caseless slab ns_slab walker max_processes q q'
      → IsSound q
      → IsSound q'
  Reach-IsSound here h = h
  Reach-IsSound (next before step) h = Step-IsSound step (Reach-IsSound before h)
