-- ===== src/Queue/Index/Passes.antt =====
-- A worker's step keeps the index of the tasks in step with the lists.
use mathlib.Core.List.{Perm, Mem, perm_middle, mem-cons_self}
use mathlib.Core.List.Perm
use mathlib.Core.Path.{subst}
use ngx_cache_purge.Prelude.{
  ℕ, ◌≡◌, refl, sym, ◌∙◌, inl, inr, Bool, true, false, List, [], ◌∷◌, ◌++◌, some, ◌==◌, min, arith,
  Option-cases,
}
use ngx_cache_purge.Ngx.{Slab, SlabLaws}
use ngx_cache_purge.Queue.Task.{Task, requeued}
use ngx_cache_purge.Queue.State.{Queue, at_addr, unlink}
use ngx_cache_purge.Queue.Process.{
  rotate, Walker, Work, Worker, claimed_task, claim_head, claim_due, claim, settle, complete_task,
  finish, advance, go_on, process_queue, item_at,
}
use ngx_cache_purge.Queue.Counts.{addr-at_addr}
use ngx_cache_purge.Queue.Index.{
  entry_of, entries, IsIndexed, perm-rotate, perm-unlink, entry_of-requeued,
  remove_entry-UniqueKeys, remove_entry-UniqueAddrs, remove_entry-Absent_self, Held-remove_entry,
  Held-change, perm-remove_entry,
}
use ngx_cache_purge.Queue.Index.Moves.{perm-to_pending, perm-to_active, entries_of}
use ngx_cache_purge.Queue.Claimed.{HasItem, claim-HasItem}

module _ {S C : Type 0} (slab : Slab S) (laws : SlabLaws slab) (walker : Walker C)
    (w : Worker) where
  open laws use {held, calloc_fresh, held-calloc, held-free}

  claim_head-IsIndexed :
      (t : Task) (rest : List Task) (q : Queue S)
      → IsIndexed held (record q { pending = t ∷ rest })
      → IsIndexed held (claim_head slab walker w t rest q)
  unfolding claim_head
  claim_head-IsIndexed t rest q h =
      let t' = claimed_task slab walker w q t in
      let tasks = Perm.trans h.tasks (
        entries_of t t' _ _ (rest ++ q.active) refl (Perm.refl (t ∷ (rest ++ q.active)))
          (perm-to_active t' rest q.active)) in
      record { tasks = tasks; keys = h.keys; addrs = h.addrs; in_use = h.in_use }

  entry_of-settle :
      (complete : Bool) (c : C) (t : Task)
      → entry_of (settle slab walker w complete c t).1 ≡ entry_of t
  unfolding settle
  entry_of-settle complete c t = ground arith

  complete_task-IsIndexed :
      (complete : Bool) (c : C) (t : Task) (q : Queue S)
      → at_addr t.addr q.active ≡ some t
      → IsIndexed held q
      → IsIndexed held (complete_task slab walker w complete c t q)
  unfolding complete_task
  complete_task-IsIndexed complete c t q e h =
      let out = perm-unlink t.addr q.active t e in
      let all : Perm (q.pending ++ q.active) (t ∷ (q.pending ++ unlink t.addr q.active)) =
        Perm.trans (Perm.append (Perm.refl q.pending) out)
          (perm_middle q.pending (unlink t.addr q.active)) in
      let t' = requeued w.now (settle slab walker w complete c t).1 in
      let again = Perm.trans h.tasks (
        entries_of t t' _ _ (q.pending ++ unlink t.addr q.active)
          (entry_of-requeued w.now (settle slab walker w complete c t).1
            ∙ entry_of-settle complete c t)
          all (perm-to_pending t' q.pending (unlink t.addr q.active))) in
      let entries_all : Perm q.index (entry_of t ∷ entries (q.pending ++ unlink t.addr q.active)) =
        Perm.trans h.tasks (Perm.map entry_of all) in
      let there : Mem (entry_of t) q.index = (Perm.mem_iff entries_all).1 mem-cons_self in
      let removed = Perm.cons_inv (
        Perm.trans (Perm.symm (perm-remove_entry (entry_of t) q.index h.addrs there))
          entries_all) in
      let gone = remove_entry-Absent_self t.addr q.index h.addrs in
      let freed : (b : ℕ)
          → (b == t.addr) ≡ false
          → held (slab.free t.addr q.shpool) b ≡ held q.shpool b =
        λ b other. held-free t.addr q.shpool b ∙ rw other refl in
      let in_use =
        Held-change (held q.shpool) (held (slab.free t.addr q.shpool)) t.addr _ freed gone
          (Held-remove_entry (held q.shpool) t.addr q.index h.in_use) in
      ground (
        arith,
        h,
        again,
        removed,
        in_use,
        remove_entry-UniqueKeys t.addr q.index h.keys,
        remove_entry-UniqueAddrs t.addr q.index h.addrs,
      )

  claim_due-IsIndexed :
      (ts : List Task) (q : Queue S) (work : Work C)
      → IsIndexed held q
      → IsIndexed held (record q { pending = ts })
      → IsIndexed held (claim_due slab walker w ts q work).queue
  unfolding claim_due
  claim_due-IsIndexed [] q work h r = h
  claim_due-IsIndexed (t ∷ rest) q work h r = claim_head-IsIndexed t rest q r

  claim-IsIndexed :
      (final : Bool) (q : Queue S) (work : Work C)
      → IsIndexed held q
      → IsIndexed held (claim slab walker w final q work).queue
  unfolding claim
  claim-IsIndexed final q work h =
      let ts = rotate w.now (min q.size 64) q.pending in
      let turned =
        Perm.append (Perm.symm (perm-rotate w.now (min q.size 64) q.pending))
          (Perm.refl q.active) in
      let rotated : IsIndexed held (record q { pending = ts.0 }) = record {
        tasks = Perm.trans h.tasks (Perm.map entry_of turned);
        keys = h.keys;
        addrs = h.addrs;
        in_use = h.in_use;
      } in
      ground (arith, rotated, claim_due-IsIndexed ts.0 q work h rotated)

  finish-IsIndexed :
      (addr : ℕ) (q : Queue S) (work : Work C)
      → HasItem (some addr) q.active
      → IsIndexed held q
      → IsIndexed held (finish slab walker w addr q work).queue
  unfolding finish item_at
  finish-IsIndexed addr q work (t, e) h =
      rw (e, finish, item_at)
        (complete_task-IsIndexed work.complete work.cursor t q
          (subst (λ a. at_addr a q.active ≡ some t) (sym (addr-at_addr addr q.active t e)) e) h)

  advance-IsIndexed :
      (final : Bool) (addr : ℕ) (q : Queue S) (work : Work C)
      → HasItem (some addr) q.active
      → IsIndexed held q
      → IsIndexed held (advance slab walker w final addr q work).queue
  unfolding advance
  advance-IsIndexed true addr q work there h = finish-IsIndexed addr q _ there h
  advance-IsIndexed false addr q work there h = grind (arith, finish-IsIndexed)

  -- A worker's step keeps the index in step with the lists, and frees no task that is still listed, if
  -- the task that it goes on with, if any, is still active.
  pub process_queue-IsIndexed :
      (final : Bool) (q : Queue S) (work : Work C)
      → HasItem work.item q.active
      → IsIndexed held q
      → IsIndexed held (process_queue slab walker w final q work).queue
  unfolding process_queue go_on
  process_queue-IsIndexed final q work there h = elim (Option-cases work.item) [
    | inr (addr, e) ↦ rw (e, process_queue) (advance-IsIndexed final addr q work (rw e at there) h)
    | inl e ↦
        let p = claim slab walker w final q work in
        let kept = claim-IsIndexed final q work h in
        let claimed = claim-HasItem slab walker w final q work e in
        rw (e, process_queue)
          (elim (Option-cases p.work.item) [
            | inl none' ↦ rw (none', go_on) kept
            | inr (addr, found) ↦
                rw (found, go_on)
                  (advance-IsIndexed final addr p.queue p.work (rw found at claimed) kept)
          ])
  ]
