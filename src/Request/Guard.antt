-- ===== src/Request/Guard.antt =====
-- What the guard of `ngx_http_cache_purge_dispatch` is for: nothing behind it refuses a key for its
-- length.
use ngx_cache_purge.Prelude.{
  ℕ, ◌+◌, ◌↔◌, ◌≡◌, ◌≢◌, inl, inr, refl, Bool, true, false, List, Option, none, some, if◌then◌else◌,
  Bool-cases, Option-cases, arith,
}
use ngx_cache_purge.Ngx.{Text, Slab, Rc, busy, done, ok, error, again, declined, abort, is_ok}
use ngx_cache_purge.Generation.State
use ngx_cache_purge.Generation.State.{
  Generation, Invalidated, invalidate, is_expected, publish, add_rule, logical_key_max,
  ends_in_star, drop_last,
}
use ngx_cache_purge.Queue.State.{Queue}
use ngx_cache_purge.Queue.Paths.{find_path}
use ngx_cache_purge.Queue.Enqueue.{
  Request, Namespace, enqueue, enqueue_at, admit, deduplicate, invalidate_namespace, key_too_long,
}
use ngx_cache_purge.Reply.Catalog.{invalid_selector}
use ngx_cache_purge.Request.Dispatch.{
  Mode, answered, is_too_long, is_background, is_declined, after_enqueue, dispatch,
}

module _ {S T : Type 0} (text : Text) (caseless : Bool) (slab : Slab S) (ns_slab : Slab T) where
  -- The guard covers the limit of the queue.
  too_long_guarded :
      (m : Mode) (r : Request) (ns : Option (Namespace T))
      → is_too_long m ns r ≡ false
      → is_background m ns r ≡ true
      → key_too_long ns r ≡ false
  unfolding is_too_long key_too_long
  too_long_guarded m r none h b = ground arith
  too_long_guarded m r (some ns) h b = h

  add_rule_rc :
      (prefix : Bool) (key : List ℕ) (state : Generation) (pool : T)
      → is_ok (add_rule text ns_slab prefix key state pool).rc ≡ true
  unfolding add_rule
  add_rule_rc prefix key state pool = ground arith

  publish_rc :
      (key : List ℕ) (all prefix : Bool) (state : Generation) (pool : T)
      → is_ok (publish text ns_slab key all prefix state pool).rc ≡ true
  unfolding publish
  publish_rc key all prefix state pool =
      let (garbage, pool') = State.collect text ns_slab 64 state.garbage pool in
      ground (
        arith,
        add_rule_rc prefix (if prefix then drop_last key else key)
            (record state { garbage = garbage; serial = state.serial + 1 }) pool',
      )

  -- Without an expected key, an invalidation is not declined.
  invalidate_not_declined :
      (locked : Bool) (name key : List ℕ) (all : Bool) (state : Generation) (pool : T)
      → is_declined (invalidate text ns_slab locked name key all none state pool).rc ≡ false
  unfolding invalidate is_expected
  invalidate_not_declined locked name key all state pool =
      ground (arith, publish_rc key all (ends_in_star key) state pool)

  invalidate_namespace_not_declined :
      (r : Request) (ns : Option (Namespace T))
      → r.expected ≡ none
      → is_declined (invalidate_namespace text caseless slab ns_slab r ns).0 ≡ false
  unfolding invalidate_namespace
  invalidate_namespace_not_declined r none e = refl
  invalidate_namespace_not_declined r (some ns) e =
      rw e (invalidate_not_declined r.ns_locked ns.name r.key r.purge_all ns.state ns.pool)

  enqueue_at_not_declined :
      (r : Request) (ns : Option (Namespace T)) (path : ℕ) (q : Queue S)
      → r.expected ≡ none
      → is_declined (enqueue_at text caseless slab ns_slab r ns path q).rc ≡ false
  unfolding enqueue_at deduplicate admit
  enqueue_at_not_declined r ns path q e = ground (arith, invalidate_namespace_not_declined r ns e)

  enqueue_not_declined :
      (r : Request) (ns : Option (Namespace T)) (q : Queue S)
      → r.expected ≡ none
      → key_too_long ns r ≡ false
      → is_declined (enqueue text caseless slab ns_slab r ns q).rc ≡ false
  unfolding enqueue
  enqueue_not_declined r ns q e short =
      elim (Option-cases (find_path text caseless r.cache_path q.paths)) [
        | inl missing ↦ ground (arith, short, missing)
        | inr (path, found) ↦ ground (arith, short, found, enqueue_at_not_declined r ns path q e)
      ]

  after_enqueue_declined :
      (ns : Option (Namespace T)) (rc : Rc)
      → is_declined rc ≡ false
      → after_enqueue ns rc ≢ answered invalid_selector
  unfolding after_enqueue
  after_enqueue_declined none ok h e = grind (arith, e)
  after_enqueue_declined (some n) ok h e = grind (arith, e)
  after_enqueue_declined ns error h e = grind (arith, e)
  after_enqueue_declined ns again h e = grind (arith, e)
  after_enqueue_declined ns busy h e = grind (arith, e)
  after_enqueue_declined ns done h e = grind (arith, e)
  after_enqueue_declined ns abort h e = grind (arith, e)
  after_enqueue_declined ns declined h e = grind (arith, h)

  dispatch_passes :
      (m : Mode) (r : Request) (ns : Option (Namespace T)) (q : Queue S)
      → r.expected ≡ none
      → is_too_long m ns r ≡ false
      → (dispatch text caseless slab ns_slab m r ns q).0 ≢ answered invalid_selector
  unfolding dispatch
  dispatch_passes m r ns q e short h = elim (Bool-cases (is_background m ns r)) [
    | inl back ↦
        let admitted = enqueue_not_declined r ns q e (too_long_guarded m r ns short back) in
        let clash = after_enqueue_declined ns _ admitted in ground (arith, short, back, h, clash)
    | inr front ↦ ground (arith, short, front, h)
  ]

  -- A request without an expected key is answered with invalid_selector exactly when the guard finds
  -- its key too long; the queue and the namespace never refuse a key that has passed the guard.
  pub dispatch_selector :
      (m : Mode) (r : Request) (ns : Option (Namespace T)) (q : Queue S)
      → r.expected ≡ none
      → ((dispatch text caseless slab ns_slab m r ns q).0 ≡ answered invalid_selector)
        ↔ (is_too_long m ns r ≡ true)
  unfolding dispatch
  dispatch_selector m r ns q e = (
    λ h. elim (Bool-cases (is_too_long m ns r)) [
      | inl long ↦ long
      | inr short ↦ absurd (dispatch_passes m r ns q e short h)
    ],
    λ long. rw (long, dispatch) refl,
  )
