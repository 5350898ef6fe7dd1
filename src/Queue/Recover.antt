-- ===== src/Queue/Recover.antt =====
-- `ngx_http_cache_purge_recover`: the tasks of workers that are gone become pending again.
use ngx_cache_purge.Prelude.{
  ℕ, zero, suc, ◌+◌, ◌-◌, Bool, ◌&&◌, List, [], ◌∷◌, Option, some, ◌==◌, if◌then◌else◌, min,
}
use ngx_cache_purge.Queue.Task.{Task, requeued, enqueued, enqueued_full, finished, as_count}
use ngx_cache_purge.Queue.State.{Queue, stat_add, insert_tail, oldest_after}

-- `NGX_CACHE_PURGE_WALK_ENTRIES`.
abbrev pub walk_entries : ℕ
walk_entries = 64

module _ {S : Type 0} (process_alive : ℕ → Bool) (slot : Option ℕ) (now : ℕ) where
  -- The worker that claimed the task still has its slot, in the same epoch, and runs.
  unfoldable pub is_owned : Queue S → Task → Bool
  is_owned q t =
      q.owners t.owner_slot == t.owner
      && q.epochs t.owner_slot == t.owner_epoch
      && process_alive t.owner

  unfoldable pub take_back : Task → List Task → Queue S → Queue S
  take_back t rest q = record q {
    active = rest;
    pending = insert_tail (requeued now t) q.pending;
    oldest = oldest_after now q.pending q.oldest;
    running = q.running - 1;
    size = q.size + 1;
    stats =
        stat_add slot (some t.path) enqueued_full (as_count t.purge_all)
          (stat_add slot (some t.path) enqueued 1 (stat_add slot (some t.path) finished 1 q.stats));
  }

  -- One round, for the first active task `t` with the others behind it.
  unfoldable pub recover_one : Task → List Task → Queue S → Queue S
  recover_one t rest q =
      if is_owned q t then record q { active = insert_tail t rest } else take_back t rest q

  -- `n` rounds are left. The list has a task in each: there are as many as `running` says.
  unfoldable pub recover_loop : ℕ → Queue S → Queue S
  recover_loop zero q = q
  recover_loop (suc n) q = elim q.active [
    | [] ↦ q
    | t ∷ rest ↦ recover_loop n (recover_one t rest q)
  ]

  unfoldable pub recover : Bool → Queue S → Queue S
  recover locked q = if locked then recover_loop (min q.running walk_entries) q else q
