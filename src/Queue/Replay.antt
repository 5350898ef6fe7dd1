-- ===== src/Queue/Replay.antt =====
-- Requests that meet a task of the same key, and what becomes of a task when its pass is over.
use mathlib.Core.List.{Mem, mem-cons_self}
use mathlib.Core.List.Perm
use ngx_cache_purge.Prelude.{
  ℕ, ◌+◌, ◌≤◌, ◌≡◌, ◌↔◌, ◌∙◌, ◌⊎◌, inl, inr, Bool, true, false, List, [], ◌∷◌, Option, some, leb,
  length, arith, Bool-cases, Option-cases, bytes_eq_refl, ==_refl,
}
use ngx_cache_purge.Ngx.{Text, Slab, ok}
use ngx_cache_purge.Queue.Task.{Task, requeued}
use ngx_cache_purge.Queue.State.{Queue, find, modify, insert_tail, at_addr}
use ngx_cache_purge.Queue.Enqueue.{
  Namespace, Request, sizeof_item, lookup_key, touched, deduplicate, admit, enqueue_at,
}
use ngx_cache_purge.Queue.Process.{Walker, Worker, settle, complete_task}
use ngx_cache_purge.Queue.Index.{perm-insert_tail}

touched-addr : (p : ℕ) (t : Task) → (touched p t).addr ≡ t.addr
unfolding touched
touched-addr p t = ground arith

at_addr-modify :
    (addr p : ℕ) (ts : List Task) (t : Task)
    → at_addr addr ts ≡ some t
    → at_addr addr (modify addr (touched p) ts) ≡ some (touched p t)
unfolding at_addr modify
at_addr-modify addr p [] t h = cc
at_addr-modify addr p (u ∷ ts) t h = ground (arith, touched-addr p u, at_addr-modify addr p ts t)

module _ {S T : Type 0} (text : Text) (caseless : Bool) (slab : Slab S) (ns_slab : Slab T) where
  admit-find :
      (r : Request) (ns : Option (Namespace T)) (path addr : ℕ) (pool : S) (q : Queue S)
      → (admit text caseless slab ns_slab r ns path addr pool q).rc ≡ ok
      → find path
          (lookup_key ns r)
          (admit text caseless slab ns_slab r ns path addr pool q).queue.index
        ≡ some addr
  unfolding admit find
  admit-find r ns path addr pool q h = ground (arith, bytes_eq_refl (lookup_key ns r), ==_refl path)

  deduplicate-find :
      (r : Request) (ns : Option (Namespace T)) (path addr : ℕ) (q : Queue S)
      → (deduplicate text caseless slab ns_slab r ns path addr q).queue.index ≡ q.index
  unfolding deduplicate
  deduplicate-find r ns path addr q = ground arith

  deduplicate-size :
      (r : Request) (ns : Option (Namespace T)) (path addr : ℕ) (q : Queue S)
      → (deduplicate text caseless slab ns_slab r ns path addr q).queue.size ≡ q.size
  unfolding deduplicate
  deduplicate-size r ns path addr q = ground arith

  -- A request that was accepted has its task in the tree.
  enqueue_at-find :
      (r : Request) (ns : Option (Namespace T)) (path : ℕ) (q : Queue S)
      → (enqueue_at text caseless slab ns_slab r ns path q).rc ≡ ok
      → (addr : ℕ) × (find path
            (lookup_key ns r)
            (enqueue_at text caseless slab ns_slab r ns path q).queue.index
          ≡ some addr)
  unfolding enqueue_at
  enqueue_at-find r ns path q h = elim (Option-cases (find path (lookup_key ns r) q.index)) [
    | inr (addr, e) ↦ (addr, rw (e, enqueue_at) (rw (deduplicate-find r ns path addr q) e))
    | inl new ↦ elim (Bool-cases (leb q.max_size (q.size + q.running))) [
      | inl full ↦ absurd (ground (arith, full, new))
      | inr room ↦
          elim (Option-cases (
            slab.calloc (sizeof_item + length (lookup_key ns r) + 1 + length r.pool_name)
              q.shpool)) [
                | inl e ↦ absurd (ground (arith, room, new, e))
                | inr ((addr, pool), e) ↦ (
                  addr,
                  rw (new, room, e, enqueue_at)
                      (admit-find r ns path addr pool q (ground (arith, room, new, e))),
                )
              ]
    ]
  ]

  found_size :
      (r : Request) (ns : Option (Namespace T)) (path addr : ℕ) (q : Queue S)
      → find path (lookup_key ns r) q.index ≡ some addr
      → (enqueue_at text caseless slab ns_slab r ns path q).queue.size ≡ q.size
  unfolding enqueue_at
  found_size r ns path addr q e = rw (e, enqueue_at) (deduplicate-size r ns path addr q)

  -- Where a request was accepted, a later one for the same key and path adds no task.
  pub enqueue_at-size_same :
      (r r' : Request) (ns ns' : Option (Namespace T)) (path : ℕ) (q : Queue S)
      → (enqueue_at text caseless slab ns_slab r ns path q).rc ≡ ok
      → lookup_key ns' r' ≡ lookup_key ns r
      → let q' = (enqueue_at text caseless slab ns_slab r ns path q).queue in
        (enqueue_at text caseless slab ns_slab r' ns' path q').queue.size ≡ q'.size
  unfolding enqueue_at
  enqueue_at-size_same r r' ns ns' path q h same =
      let q' = (enqueue_at text caseless slab ns_slab r ns path q).queue in
      let (addr, e) = enqueue_at-find r ns path q h in
      let found : find path (lookup_key ns' r') q'.index ≡ some addr = rw same e in
      found_size r' ns' path addr q' found

  deduplicate-active :
      (r : Request) (ns : Option (Namespace T)) (path addr : ℕ) (q : Queue S) (t : Task)
      → (deduplicate text caseless slab ns_slab r ns path addr q).rc ≡ ok
      → at_addr addr q.active ≡ some t
      → at_addr addr (deduplicate text caseless slab ns_slab r ns path addr q).queue.active
        ≡ some (touched r.protection t)
  unfolding deduplicate
  deduplicate-active r ns path addr q t h e =
      ground (arith, at_addr-modify addr r.protection q.active t e)

module _ {S C : Type 0} (slab : Slab S) (walker : Walker C) (w : Worker) where
  -- A task is given up exactly when its pass was complete, nobody asked for another one, and
  -- either nothing failed or it has been retried three times.
  pub settle_iff :
      (complete : Bool) (c : C) (t : Task)
      → ((settle slab walker w complete c t).0 ≡ false) ↔ (
          (complete ≡ true)
          × (t.rerun ≡ false)
          × (((walker.scan_errors c ≡ 0) × (walker.delete_errors c ≡ 0)) ⊎ (3 ≤ t.retries)))
  unfolding settle
  settle_iff complete c t = ground arith

  -- A task that has been retried at most three times has been so too after another pass.
  pub settle-retries :
      (complete : Bool) (c : C) (t : Task)
      → t.retries ≤ 3
      → (settle slab walker w complete c t).1.retries ≤ 3
  unfolding settle
  settle-retries complete c t h = ground arith

requeued_same :
    (now : ℕ) (t : Task) (p : ℕ)
    → t.next_protection ≡ some p
    → ((requeued now t).addr ≡ t.addr)
      × ((requeued now t).key ≡ t.key)
      × ((requeued now t).protection ≡ p)
      × ((requeued now t).running ≡ false)
      × ((requeued now t).retries ≡ t.retries)
unfolding requeued
requeued_same now t p e = ground arith

touched_running_task :
    (p : ℕ) (t : Task)
    → t.running ≡ true
    → ((touched p t).rerun ≡ true)
      × ((touched p t).next_protection ≡ some p)
      × ((touched p t).key ≡ t.key)
unfolding touched
touched_running_task p t e = ground arith

-- What a task keeps when it is queued again for a request with the settings `p`.
pub record IsReplayOf (t : Task) (p : ℕ) (t' : Task) : Type 0 where
  pub addr_lem : t'.addr ≡ t.addr
  pub key_lem : t'.key ≡ t.key
  pub protection_lem : t'.protection ≡ p
  pub running_lem : t'.running ≡ false
  pub retries_lem : t'.retries ≡ 0

module _ {S T C : Type 0} (text : Text) (caseless : Bool) (slab : Slab S) (ns_slab : Slab T)
    (walker : Walker C) (w : Worker) where
  complete_rerun :
      (complete : Bool) (c : C) (t : Task) (q : Queue S)
      → t.rerun ≡ true
      → (complete_task slab walker w complete c t q).pending
        ≡ insert_tail (requeued w.now (record t { retries = 0; retry_at = 0 })) q.pending
  unfolding complete_task settle
  complete_rerun complete c t q e = ground arith

  -- A request that meets a running task is not lost: whatever becomes of the pass that is under
  -- way, the task is pending again after it, with the settings of the request and a fresh window
  -- of retries.
  pub complete_task-deduplicate :
      (r : Request) (ns : Option (Namespace T)) (path addr : ℕ) (q : Queue S) (t : Task)
      (complete : Bool) (c : C)
      → (deduplicate text caseless slab ns_slab r ns path addr q).rc ≡ ok
      → at_addr addr q.active ≡ some t
      → t.running ≡ true
      → let q' = (deduplicate text caseless slab ns_slab r ns path addr q).queue in
        (t1 : Task) × (at_addr addr q'.active ≡ some t1)
        × ((t' : Task) × Mem t' (complete_task slab walker w complete c t1 q').pending
            × IsReplayOf t r.protection t')
  complete_task-deduplicate r ns path addr q t complete c h e run =
      let q' = (deduplicate text caseless slab ns_slab r ns path addr q).queue in
      let t1 = touched r.protection t in
      let (rerun, next, key) = touched_running_task r.protection t run in
      let t2 : Task = record t1 { retries = 0; retry_at = 0 } in
      let t' = requeued w.now t2 in
      let (addr', key', protection, running, retries) = requeued_same w.now t2 r.protection next in
      let there : Mem t' (insert_tail t' q'.pending) =
        (Perm.mem_iff (perm-insert_tail t' q'.pending)).1 mem-cons_self in
      (
        t1,
        deduplicate-active text caseless slab ns_slab r ns path addr q t h e,
        (
          t',
          rw (complete_rerun complete c t1 q' rerun) there,
          record {
            addr_lem = addr' ∙ touched-addr r.protection t;
            key_lem = key' ∙ key;
            protection_lem = protection;
            running_lem = running;
            retries_lem = retries;
          },
        ),
      )
