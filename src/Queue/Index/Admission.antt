-- ===== src/Queue/Index/Admission.antt =====
-- A request keeps the index of the tasks in step with the lists.
use mathlib.Core.List.{Perm}
use mathlib.Core.Path.{subst}
use ngx_cache_purge.Prelude.{
  ℕ, ◌+◌, ◌≡◌, refl, sym, ◌∙◌, inl, inr, Bool, true, false, Option, none, some, leb, ◌==◌, length,
  arith, ==_refl, Bool-cases, Option-cases,
}
use ngx_cache_purge.Ngx.{Text, Slab, SlabLaws}
use ngx_cache_purge.Queue.State.{Queue, find}
use ngx_cache_purge.Queue.Enqueue.{
  Namespace, Request, new_task, deduplicate, admit, enqueue_at, enqueue, lookup_key, sizeof_item,
}
use ngx_cache_purge.Queue.Index.{Held, IsIndexed, Held-change, Absent-of_free}
use ngx_cache_purge.Queue.Index.Moves.{touched_both, admitted-Perm}

module _ {S T : Type 0} (text : Text) (caseless : Bool) (slab : Slab S) (ns_slab : Slab T)
    (laws : SlabLaws slab) where
  open laws use {held, calloc_fresh, held-calloc, held-free}

  deduplicate-IsIndexed :
      (r : Request) (ns : Option (Namespace T)) (path addr : ℕ) (q : Queue S)
      → IsIndexed held q
      → IsIndexed held (deduplicate text caseless slab ns_slab r ns path addr q).queue
  unfolding deduplicate
  deduplicate-IsIndexed r ns path addr q h =
      let kept = touched_both r.protection addr q.pending q.active in
      let tasks = subst (Perm q.index) (sym kept) h.tasks in ground (arith, h, tasks)

  admit-IsIndexed :
      (r : Request) (ns : Option (Namespace T)) (path addr n : ℕ) (pool : S) (q : Queue S)
      → IsIndexed held q
      → find path (lookup_key ns r) q.index ≡ none
      → slab.calloc n q.shpool ≡ some (addr, pool)
      → IsIndexed held (admit text caseless slab ns_slab r ns path addr pool q).queue
  unfolding admit
  admit-IsIndexed r ns path addr n pool q h new e =
      let t = new_task text caseless slab ns_slab r ns path addr in
      let absent =
        Absent-of_free (held q.shpool) addr q.index h.in_use
          (calloc_fresh n q.shpool addr pool e) in
      let grown : (b : ℕ) → (b == addr) ≡ false → held pool b ≡ held q.shpool b =
        λ b other. held-calloc n q.shpool addr pool b e ∙ rw other refl in
      let in_use : Held (held pool) q.index =
        Held-change (held q.shpool) (held pool) addr q.index grown absent h.in_use in
      let here : held pool addr ≡ true =
        held-calloc n q.shpool addr pool addr e ∙ rw (==_refl addr) refl in
      let freed : (b : ℕ) → (b == addr) ≡ false → held (slab.free addr pool) b ≡ held q.shpool b =
        λ b other. held-free addr pool b ∙ rw other (grown b other) in
      let back : Held (held (slab.free addr pool)) q.index =
        Held-change (held q.shpool) (held (slab.free addr pool)) addr q.index freed absent
          h.in_use in
      ground (
        arith,
        h,
        admitted-Perm t q.index q.pending q.active h.tasks,
        absent,
        in_use,
        here,
        back,
        new,
      )

  enqueue_at-IsIndexed :
      (r : Request) (ns : Option (Namespace T)) (path : ℕ) (q : Queue S)
      → IsIndexed held q
      → IsIndexed held (enqueue_at text caseless slab ns_slab r ns path q).queue
  unfolding enqueue_at
  enqueue_at-IsIndexed r ns path q h = elim (Option-cases (find path (lookup_key ns r) q.index)) [
    | inr (addr, e) ↦ rw (e, enqueue_at) (deduplicate-IsIndexed r ns path addr q h)
    | inl new ↦
        rw (new, enqueue_at)
          (elim (Bool-cases (leb q.max_size (q.size + q.running))) [
            | inl full ↦ rw full h
            | inr room ↦
                rw room
                  (elim (Option-cases (
                    slab.calloc (sizeof_item + length (lookup_key ns r) + 1 + length r.pool_name)
                      q.shpool)) [
                        | inl e ↦ rw e h
                        | inr ((addr, pool), e) ↦
                            rw e (admit-IsIndexed r ns path addr _ pool q h new e)
                      ])
          ])
  ]

  -- A request keeps the index in step with the lists, whichever branch it takes.
  pub enqueue-IsIndexed :
      (r : Request) (ns : Option (Namespace T)) (q : Queue S)
      → IsIndexed held q
      → IsIndexed held (enqueue text caseless slab ns_slab r ns q).queue
  unfolding enqueue
  enqueue-IsIndexed r ns q h = grind (arith, enqueue_at-IsIndexed)
