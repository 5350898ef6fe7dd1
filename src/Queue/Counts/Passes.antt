-- ===== src/Queue/Counts/Passes.antt =====
-- A worker's step keeps the counts of the queue.
use mathlib.Core.Path.{subst, sym}
use ngx_cache_purge.Prelude.{
  ℕ, ◌≡◌, refl, inl, inr, Bool, true, false, List, [], ◌∷◌, some, min, arith, Option-cases,
}
use ngx_cache_purge.Ngx.{Slab}
use ngx_cache_purge.Queue.Task.{Task, requeued}
use ngx_cache_purge.Queue.State.{Queue, at_addr}
use ngx_cache_purge.Queue.Process.{
  Walker, Work, Worker, rotate, claim, claim_due, claim_head, settle, complete_task, finish,
  advance, go_on, process_queue, claimed_task, item_at,
}
use ngx_cache_purge.Queue.Counts.{
  IsCounted, length-insert_tail, insert_tail-Flagged, length-unlink, unlink-Flagged, addr-at_addr,
  requeued_running, length-rotate, rotate-Flagged,
}
use ngx_cache_purge.Queue.Claimed.{HasItem, claim-HasItem}

module _ {S C : Type 0} (slab : Slab S) (walker : Walker C) (w : Worker) where
  claim_head-IsCounted :
      (t : Task) (rest : List Task) (q : Queue S)
      → IsCounted (record q { pending = t ∷ rest })
      → IsCounted (claim_head slab walker w t rest q)
  unfolding claim_head
  claim_head-IsCounted t rest q h =
      let t' = claimed_task slab walker w q t in
      ground
        (arith, length-insert_tail t' q.active, insert_tail-Flagged true t' q.active refl h.running)

  claim_due-IsCounted :
      (ts : List Task) (q : Queue S) (work : Work C)
      → IsCounted q
      → IsCounted (record q { pending = ts })
      → IsCounted (claim_due slab walker w ts q work).queue
  unfolding claim_due
  claim_due-IsCounted [] q work h r = h
  claim_due-IsCounted (t ∷ rest) q work h r = claim_head-IsCounted t rest q r

  claim-IsCounted :
      (final : Bool) (q : Queue S) (work : Work C)
      → IsCounted q
      → IsCounted (claim slab walker w final q work).queue
  unfolding claim
  claim-IsCounted final q work h =
      let ts = rotate w.now (min q.size 64) q.pending in
      let rotated : IsCounted (record q { pending = ts.0 }) = record {
        size_lem = omega (arith, h.size_lem, length-rotate w.now (min q.size 64) q.pending);
        running_lem = h.running_lem;
        bounded = h.bounded;
        waiting = rotate-Flagged false w.now (min q.size 64) q.pending h.waiting;
        running = h.running;
      } in
      ground (arith, rotated, claim_due-IsCounted ts.0 q work h rotated)

  complete_task-IsCounted :
      (complete : Bool) (c : C) (t : Task) (q : Queue S)
      → at_addr t.addr q.active ≡ some t
      → IsCounted q
      → IsCounted (complete_task slab walker w complete c t q)
  unfolding complete_task
  complete_task-IsCounted complete c t q e h =
      let t' = requeued w.now (settle slab walker w complete c t).1 in
      ground (
        arith,
        length-unlink t.addr q.active t e,
        unlink-Flagged true t.addr q.active h.running,
        length-insert_tail t' q.pending,
        insert_tail-Flagged false t' q.pending
            (requeued_running w.now (settle slab walker w complete c t).1) h.waiting,
      )

  finish-IsCounted :
      (addr : ℕ) (q : Queue S) (work : Work C)
      → HasItem (some addr) q.active
      → IsCounted q
      → IsCounted (finish slab walker w addr q work).queue
  unfolding finish item_at
  finish-IsCounted addr q work (t, e) h =
      rw (e, finish, item_at)
        (complete_task-IsCounted work.complete work.cursor t q
          (subst (λ a. at_addr a q.active ≡ some t) (sym (addr-at_addr addr q.active t e)) e) h)

  advance-IsCounted :
      (final : Bool) (addr : ℕ) (q : Queue S) (work : Work C)
      → HasItem (some addr) q.active
      → IsCounted q
      → IsCounted (advance slab walker w final addr q work).queue
  unfolding advance
  advance-IsCounted true addr q work there h = finish-IsCounted addr q _ there h
  advance-IsCounted false addr q work there h = grind (arith, finish-IsCounted)

  -- A worker's step keeps the counts, whatever the walk does and whichever lock it gets, if
  -- the task that it goes on with, if any, is still active.
  pub process_queue-IsCounted :
      (final : Bool) (q : Queue S) (work : Work C)
      → HasItem work.item q.active
      → IsCounted q
      → IsCounted (process_queue slab walker w final q work).queue
  unfolding process_queue go_on
  process_queue-IsCounted final q work there h = elim (Option-cases work.item) [
    | inr (addr, e) ↦ rw (e, process_queue) (advance-IsCounted final addr q work (rw e at there) h)
    | inl e ↦
        let p = claim slab walker w final q work in
        let kept = claim-IsCounted final q work h in
        let claimed = claim-HasItem slab walker w final q work e in
        rw (e, process_queue)
          (elim (Option-cases p.work.item) [
            | inl none' ↦ rw (none', go_on) kept
            | inr (addr, found) ↦
                rw (found, go_on)
                  (advance-IsCounted final addr p.queue p.work (rw found at claimed) kept)
          ])
  ]
