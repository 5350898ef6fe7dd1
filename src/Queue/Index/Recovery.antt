-- ===== src/Queue/Index/Recovery.antt =====
-- The recovery keeps the index of the tasks in step with the lists.
use mathlib.Core.List.{Perm, perm_middle}
use mathlib.Core.List.Perm
use mathlib.Core.Path.{subst}
use ngx_cache_purge.Prelude.{
  ℕ, zero, suc, ◌≡◌, refl, inl, inr, Bool, List, ◌∷◌, ◌++◌, Option, min, arith, List-cases,
}
use ngx_cache_purge.Queue.Task.{Task, requeued}
use ngx_cache_purge.Queue.State.{Queue}
use ngx_cache_purge.Queue.Recover.{recover, recover_loop, recover_one, take_back}
use ngx_cache_purge.Queue.Index.{entries, IsIndexed, entry_of-requeued}
use ngx_cache_purge.Queue.Index.Moves.{perm-to_pending, perm-to_active, entries_of}

module _ {S : Type 0} (held : S → ℕ → Bool) (process_alive : ℕ → Bool) (slot : Option ℕ)
    (now : ℕ) where
  recover_one-IsIndexed :
      (t : Task) (rest : List Task) (q : Queue S)
      → q.active ≡ t ∷ rest
      → IsIndexed held q
      → IsIndexed held (recover_one process_alive slot now t rest q)
  unfolding recover_one take_back
  recover_one-IsIndexed t rest q e h =
      let tasks : Perm q.index (entries (q.pending ++ t ∷ rest)) =
        subst (λ ts. Perm q.index (entries (q.pending ++ ts))) e h.tasks in
      let t' = requeued now t in
      let kept = Perm.trans tasks (
        entries_of t t _ _ (q.pending ++ rest) refl (perm_middle q.pending rest)
          (perm-to_active t q.pending rest)) in
      let back = Perm.trans tasks (
        entries_of t t' _ _ (q.pending ++ rest) (entry_of-requeued now t)
          (perm_middle q.pending rest) (perm-to_pending t' q.pending rest)) in
      ground (arith, kept, back)

  recover_loop-IsIndexed :
      (n : ℕ) (q : Queue S)
      → IsIndexed held q
      → IsIndexed held (recover_loop process_alive slot now n q)
  unfolding recover_loop
  recover_loop-IsIndexed zero q h = h
  recover_loop-IsIndexed (suc n) q h = elim (List-cases q.active) [
    | inl e ↦ rw (e, recover_loop) h
    | inr (t, rest, e) ↦
        rw (e, recover_loop)
          (recover_loop-IsIndexed n (recover_one process_alive slot now t rest q)
            (recover_one-IsIndexed t rest q e h))
  ]

  -- The recovery of the tasks of dead workers keeps the index in step with the lists.
  pub recover-IsIndexed :
      (locked : Bool) (q : Queue S)
      → IsIndexed held q
      → IsIndexed held (recover process_alive slot now locked q)
  unfolding recover
  recover-IsIndexed locked q h = ground (arith, recover_loop-IsIndexed (min q.running 64) q h)
