-- ===== src/Queue/Claimed.antt =====
-- The task that a worker holds is in the list of the active tasks, from its claim on.
use ngx_cache_purge.Prelude.{
  ℕ, ◌≡◌, inl, inr, Bool, List, [], ◌∷◌, Option, none, some, ◌==◌, min, arith, Bool-cases,
}
use ngx_cache_purge.Ngx.{Slab}
use ngx_cache_purge.Queue.Task.{Task}
use ngx_cache_purge.Queue.State.{Queue, at_addr, insert_tail}
use ngx_cache_purge.Queue.Process.{
  Walker, Work, Worker, rotate, claim, claim_due, claim_head, claimed_task,
}

-- The address, if any, is that of one of the tasks.
abbrev pub HasItem : Option ℕ → List Task → Type 0
HasItem none ts = Unit
HasItem (some addr) ts = (t : Task) × (at_addr addr ts ≡ some t)

insert_tail-HasItem : (t : Task) (ts : List Task) → HasItem (some t.addr) (insert_tail t ts)
unfolding insert_tail at_addr
insert_tail-HasItem t [] = (t, ground arith)
insert_tail-HasItem t (u ∷ ts) =
    let (found, e) = insert_tail-HasItem t ts in
    elim (Bool-cases (u.addr == t.addr)) [
      | inl same ↦ (u, ground (arith, same))
      | inr other ↦ (found, ground (arith, other, e))
    ]

module _ {S C : Type 0} (slab : Slab S) (walker : Walker C) (w : Worker) where
  claim_due-HasItem :
      (ts : List Task) (q : Queue S) (work : Work C)
      → work.item ≡ none
      → let p = claim_due slab walker w ts q work in HasItem p.work.item p.queue.active
  unfolding claim_due claim_head
  claim_due-HasItem [] q work e = rw e tt
  claim_due-HasItem (t ∷ rest) q work e =
      insert_tail-HasItem (claimed_task slab walker w q t) q.active

  -- After a claim by a worker without a task, the task that it has then, if any, is active.
  pub claim-HasItem :
      (final : Bool) (q : Queue S) (work : Work C)
      → work.item ≡ none
      → let p = claim slab walker w final q work in HasItem p.work.item p.queue.active
  unfolding claim
  claim-HasItem final q work e =
      let ts = rotate w.now (min q.size 64) q.pending in
      let due = claim_due-HasItem ts.0 q work e in
      let idle : HasItem work.item q.active = rw e tt in ground (arith, due, idle)
