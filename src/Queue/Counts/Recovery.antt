-- ===== src/Queue/Counts/Recovery.antt =====
-- The recovery keeps the counts of the queue.

use ngx_cache_purge.Prelude.{
  ℕ, zero, suc, ◌≡◌, inl, inr, Bool, true, false, List, ◌∷◌, Option, min, arith, List-cases,
}
use ngx_cache_purge.Queue.Task.{Task, requeued}
use ngx_cache_purge.Queue.State.{Queue}
use ngx_cache_purge.Queue.Recover.{recover, recover_loop, recover_one, take_back}
use ngx_cache_purge.Queue.Counts.{
  IsCounted, length-insert_tail, insert_tail-Flagged, requeued_running,
}

module _ {S : Type 0} (process_alive : ℕ → Bool) (slot : Option ℕ) (now : ℕ) where
  recover_one-IsCounted :
      (t : Task) (rest : List Task) (q : Queue S)
      → q.active ≡ t ∷ rest
      → IsCounted q
      → IsCounted (recover_one process_alive slot now t rest q)
  unfolding recover_one take_back
  recover_one-IsCounted t rest q e h = ground (
    arith,
    length-insert_tail t rest,
    length-insert_tail (requeued now t) q.pending,
    insert_tail-Flagged true t rest,
    insert_tail-Flagged false (requeued now t) q.pending (requeued_running now t) h.waiting,
  )

  recover_loop-IsCounted :
      (n : ℕ) (q : Queue S) → IsCounted q → IsCounted (recover_loop process_alive slot now n q)
  unfolding recover_loop
  recover_loop-IsCounted zero q h = h
  recover_loop-IsCounted (suc n) q h = elim (List-cases q.active) [
    | inl e ↦ rw (e, recover_loop) h
    | inr (t, rest, e) ↦
        rw (e, recover_loop)
          (recover_loop-IsCounted n (recover_one process_alive slot now t rest q)
            (recover_one-IsCounted t rest q e h))
  ]

  -- The recovery of the tasks of dead workers keeps the counts.
  pub recover-IsCounted :
      (locked : Bool) (q : Queue S)
      → IsCounted q
      → IsCounted (recover process_alive slot now locked q)
  unfolding recover
  recover-IsCounted locked q h = ground (arith, recover_loop-IsCounted (min q.running 64) q h)
