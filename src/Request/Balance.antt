-- ===== src/Request/Balance.antt =====
-- The gauge of waiting requests over the whole life of a deferred request.
use ngx_cache_purge.Prelude.{
  ℕ, ◌+◌, ◌<◌, u64, ◌≡◌, inl, inr, refl, ap, ◌∙◌, Bool, true, false, List, [], ◌∷◌, Option, none,
  some, Bool-cases, arith,
}
use ngx_cache_purge.Ngx.{Text, Slab, is_again}
use ngx_cache_purge.Queue.Task.{waiting}
use ngx_cache_purge.Queue.Counts.{All}
use ngx_cache_purge.Queue.State.{Queue, stat_wait}
use ngx_cache_purge.Queue.Paths.{find_path}
use ngx_cache_purge.Queue.Enqueue.{Request, Namespace, enqueue}
use ngx_cache_purge.Request.Wait.{
  Waiting, Reading, defer, destroy, request_cleanup, request_handler, live, reads, count_wait,
}
use ngx_cache_purge.Request.Gauge.{Stats, up_down, enqueue-gauge, overflow_gauge}

module _ {S T : Type 0} (text : Text) (caseless : Bool) (slab : Slab S) (ns_slab : Slab T) where
  handler_again :
      (r : Request) (w : Waiting) (ns : Option (Namespace T)) (q : Queue S)
      → is_again (enqueue text caseless slab ns_slab r ns q).rc ≡ true
      → request_handler text caseless slab ns_slab r w ns q ≡ record {
        reply = none;
        waiting = record w { timer_set = true };
        queue = (enqueue text caseless slab ns_slab r ns q).queue;
        namespace = (enqueue text caseless slab ns_slab r ns q).namespace;
      }
  unfolding request_handler
  handler_again r w ns q e = rw (e, request_handler) refl

  handler_ends :
      (r : Request) (w : Waiting) (ns : Option (Namespace T)) (q : Queue S)
      → is_again (enqueue text caseless slab ns_slab r ns q).rc ≡ false
      → ((request_handler text caseless slab ns_slab r w ns q).waiting.armed ≡ false)
        × ((request_handler text caseless slab ns_slab r w ns q).queue.stats
            ≡ stat_wait r.slot w.path false (enqueue text caseless slab ns_slab r ns q).queue.stats)
  unfolding request_handler
  handler_ends r w ns q e = (rw (e, request_handler) refl, rw (e, request_handler) refl)

module _ {S T : Type 0} (text : Text) (caseless : Bool) (slab : Slab S) (ns_slab : Slab T)
    (slot : Option ℕ) (base : Stats) (below : (p s : ℕ) → base p s waiting + 1 < u64) where
  -- The request is counted in the gauge.
  abbrev Raised : Waiting → Queue S → Type 0
  Raised w q = (p s : ℕ) → q.stats p s waiting ≡ stat_wait slot w.path true base p s waiting

  destroy_armed :
      (w : Waiting) (q : Queue S)
      → w.armed ≡ true
      → Raised w q
      → (p s : ℕ) → (destroy text caseless slot w q).stats p s waiting ≡ base p s waiting
  unfolding destroy request_cleanup
  destroy_armed w q armed up p s = rw armed (up_down slot w.path base q.stats p s (below p s) up)

  destroy_unarmed :
      (w : Waiting) (q : Queue S)
      → w.armed ≡ false
      → (p s : ℕ) → (destroy text caseless slot w q).stats p s waiting ≡ q.stats p s waiting
  unfolding destroy
  destroy_unarmed w q unarmed p s = rw (unarmed, destroy) refl

  up_down_at :
      (own : Option ℕ) (w : Waiting)
      → own ≡ slot
      → (q : Queue S) → Raised w q
      → (p s : ℕ) → stat_wait own w.path false q.stats p s waiting ≡ base p s waiting
  up_down_at own w same q up p s = rw same (up_down slot w.path base q.stats p s (below p s) up)

  live_armed :
      (rs : List Request) (w : Waiting) (ns : Option (Namespace T)) (q : Queue S)
      → All (λ r. r.slot ≡ slot) rs
      → w.armed ≡ true
      → Raised w q
      → (p s : ℕ)
      → (live text caseless slab ns_slab rs slot w ns q).stats p s waiting ≡ base p s waiting
  unfolding live
  live_armed [] w ns q slots armed up p s = destroy_armed w q armed up p s
  live_armed (r ∷ rs) w ns q (same, slots) armed up p s = elim (Bool-cases w.timer_set) [
    | inr e ↦ simp e (destroy_armed w q armed up p s)
    | inl e ↦ elim (Bool-cases (is_again (enqueue text caseless slab ns_slab r ns q).rc)) [
      | inl e' ↦
          let out = enqueue text caseless slab ns_slab r ns q in
          simp (e, handler_again text caseless slab ns_slab r w ns q e', armed)
            (live_armed rs (record { path = w.path; armed = true; timer_set = true }) out.namespace
              out.queue slots refl
              (λ i j. enqueue-gauge text caseless slab ns_slab r ns q i j ∙ up i j) p s)
      | inr e' ↦
          let (unarmed, stats) = handler_ends text caseless slab ns_slab r w ns q e' in
          simp (e, unarmed)
            (destroy_unarmed _ _ unarmed p s
              ∙ rw stats (
                  up_down_at r.slot w same (enqueue text caseless slab ns_slab r ns q).queue
                    (λ i j. enqueue-gauge text caseless slab ns_slab r ns q i j ∙ up i j) p s))
    ]
  ]

module _ {S T : Type 0} (text : Text) (caseless : Bool) (slab : Slab S) (ns_slab : Slab T) where
  live_idle :
      (slot path : Option ℕ) (rs : List Request) (ns : Option (Namespace T)) (q : Queue S)
      → live text caseless slab ns_slab rs slot
          (record { path = path; armed = false; timer_set = false })
          ns
          q
        ≡ q
  unfolding live destroy
  live_idle slot path [] ns q = refl
  live_idle slot path (r ∷ rs) ns q = refl

  -- A request that is deferred, whatever its timer meets in any number of runs and whenever it ends,
  -- leaves the gauge of waiting requests of every path in every slot as it was, also where the
  -- deferral fails half way; its runs are in the slot of the deferral, and no gauge is at the
  -- highest 64-bit number.
  pub live-defer :
      (room : Bool) (d : Reading) (slot : Option ℕ) (cache_path : List ℕ) (q : Queue S)
      → (w : Waiting) (rs : List Request) (ns : Option (Namespace T))
      → (defer text caseless room d slot cache_path q).waiting ≡ some w
      → All (λ r. r.slot ≡ slot) rs
      → ((i j : ℕ) → q.stats i j waiting + 1 < u64)
      → (p s : ℕ)
      → (live text caseless slab ns_slab rs slot w ns
            (defer text caseless room d slot cache_path q).queue).stats
          p s waiting
        ≡ q.stats p s waiting
  unfolding defer
  live-defer false d slot cache_path q w rs ns h slots below p s = absurd (ground (arith, h))
  live-defer true d slot cache_path q w rs ns h slots below p s = elim (Bool-cases (reads d)) [
    | inr e ↦
        let made : record { path = none; armed = false; timer_set = false } ≡ w =
          ground (arith, e, h) in
        simp e (rw (← made) (ap (λ x. x.stats p s waiting) (live_idle slot none rs ns q)))
    | inl e ↦
        let path = find_path text caseless cache_path q.paths in
        let made : record { path = path; armed = true; timer_set = true } ≡ w =
          ground (arith, e, h) in
        simp e (
          rw (← made) (
            live_armed text caseless slab ns_slab slot q.stats below rs
              (record { path = path; armed = true; timer_set = true }) ns
              (count_wait text caseless slot path q) slots refl
              (λ i j. overflow_gauge slot path 1 (stat_wait slot path true q.stats) i j) p s))
  ]
