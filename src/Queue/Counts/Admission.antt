-- ===== src/Queue/Counts/Admission.antt =====
-- A request keeps the counts of the queue.

use ngx_cache_purge.Prelude.{ℕ, ◌+◌, ◌<◌, refl, Bool, true, false, Option, arith}
use ngx_cache_purge.Ngx.{Text, Slab}
use ngx_cache_purge.Queue.State.{Queue}
use ngx_cache_purge.Queue.Enqueue.{
  Namespace, Request, touched, enqueue, enqueue_at, admit, deduplicate, new_task,
}
use ngx_cache_purge.Queue.Counts.{
  IsCounted, length-insert_tail, insert_tail-Flagged, length-modify, modify-Flagged,
}

module _ {S T : Type 0} (text : Text) (caseless : Bool) (slab : Slab S) (ns_slab : Slab T) where
  deduplicate-IsCounted :
      (r : Request) (ns : Option (Namespace T)) (path addr : ℕ) (q : Queue S)
      → IsCounted q
      → IsCounted (deduplicate text caseless slab ns_slab r ns path addr q).queue
  unfolding deduplicate
  deduplicate-IsCounted r ns path addr q h = ground (
    arith,
    length-modify addr (touched r.protection) q.pending,
    length-modify addr (touched r.protection) q.active,
    modify-Flagged false addr r.protection q.pending h.waiting,
    modify-Flagged true addr r.protection q.active h.running,
  )

  admit-IsCounted :
      (r : Request) (ns : Option (Namespace T)) (path addr : ℕ) (pool : S) (q : Queue S)
      → IsCounted q
      → q.size + q.running < q.max_size
      → IsCounted (admit text caseless slab ns_slab r ns path addr pool q).queue
  unfolding admit
  admit-IsCounted r ns path addr pool q h room =
      let t = new_task text caseless slab ns_slab r ns path addr in
      ground (
        arith,
        length-insert_tail t q.pending,
        insert_tail-Flagged false t q.pending refl h.waiting,
      )

  -- Admission keeps the counts: it refuses a task beyond the configured size.
  pub enqueue-IsCounted :
      (r : Request) (ns : Option (Namespace T)) (q : Queue S)
      → IsCounted q
      → IsCounted (enqueue text caseless slab ns_slab r ns q).queue
  unfolding enqueue enqueue_at
  enqueue-IsCounted r ns q h = grind (arith, deduplicate-IsCounted, admit-IsCounted)
