-- ===== src/Request/Accept.antt =====
-- What a request that was accepted has achieved.
use ngx_cache_purge.Prelude.{
  ℕ, ◌≡◌, ◌≢◌, inl, inr, refl, sym, ap, ◌∙◌, Bool, true, Option, none, some, leb, ◌+◌, length,
  bytes_eq_refl, Bool-cases, Option-cases, arith,
}
use ngx_cache_purge.Ngx.{Text, Slab, Rc, ok, error, busy, again, declined, abort, done, is_ok}
use ngx_cache_purge.Queue.State.{Queue, find}
use ngx_cache_purge.Queue.Paths.{find_path}
use ngx_cache_purge.Queue.Enqueue.{
  Request, Namespace, enqueue, enqueue_at, admit, deduplicate, invalidate_namespace, lookup_key,
  sizeof_item,
}
use ngx_cache_purge.Reply.Catalog.{invalid_selector}
use ngx_cache_purge.Request.Dispatch.{
  Mode, answered, is_too_long, is_background, after_enqueue, success, dispatch,
}

module _ {S T : Type 0} (text : Text) (caseless : Bool) (slab : Slab S) (ns_slab : Slab T) where
  deduplicate-index :
      (r : Request) (ns : Option (Namespace T)) (path addr : ℕ) (q : Queue S)
      → (deduplicate text caseless slab ns_slab r ns path addr q).queue.index ≡ q.index
  unfolding deduplicate
  deduplicate-index r ns path addr q = ground arith

  admit-find :
      (r : Request) (ns : Option (Namespace T)) (path addr : ℕ) (pool : S) (q : Queue S)
      → is_ok (admit text caseless slab ns_slab r ns path addr pool q).rc ≡ true
      → find path
          (lookup_key ns r)
          (admit text caseless slab ns_slab r ns path addr pool q).queue.index
        ≡ some addr
  unfolding admit find
  admit-find r ns path addr pool q h =
      elim (Bool-cases (is_ok (invalidate_namespace text caseless slab ns_slab r ns).0)) [
        | inr e ↦ absurd (ground (arith, e, h))
        | inl e ↦ rw (e, admit) (ground (arith, bytes_eq_refl (lookup_key ns r)))
      ]

  enqueue_at-find :
      (r : Request) (ns : Option (Namespace T)) (path : ℕ) (q : Queue S)
      → is_ok (enqueue_at text caseless slab ns_slab r ns path q).rc ≡ true
      → (addr : ℕ) × (find path
            (lookup_key ns r)
            (enqueue_at text caseless slab ns_slab r ns path q).queue.index
          ≡ some addr)
  unfolding enqueue_at
  enqueue_at-find r ns path q h = elim (Option-cases (find path (lookup_key ns r) q.index)) [
    | inr (addr, e) ↦ (addr, rw (e, enqueue_at) (rw (deduplicate-index r ns path addr q) e))
    | inl e ↦ elim (Bool-cases (leb q.max_size (q.size + q.running))) [
      | inl full ↦ absurd (ground (arith, e, full, h))
      | inr room ↦
          elim (Option-cases (
            slab.calloc (sizeof_item + length (lookup_key ns r) + 1 + length r.pool_name)
              q.shpool)) [
                | inl none_left ↦ absurd (ground (arith, e, room, none_left, h))
                | inr ((addr, pool), got) ↦
                    let admitted : is_ok (admit text caseless slab ns_slab r ns path addr pool q).rc
                        ≡ true =
                      ground (arith, e, room, got, h) in
                    (
                      addr,
                      rw (e, room, got, enqueue_at) (admit-find r ns path addr pool q admitted),
                    )
              ]
    ]
  ]

  enqueue-find :
      (r : Request) (ns : Option (Namespace T)) (q : Queue S)
      → is_ok (enqueue text caseless slab ns_slab r ns q).rc ≡ true
      → (path : ℕ) × (addr : ℕ) × (find_path text caseless r.cache_path q.paths ≡ some path)
        × (find path (lookup_key ns r) (enqueue text caseless slab ns_slab r ns q).queue.index
            ≡ some addr)
  unfolding enqueue
  enqueue-find r ns q h = elim (Option-cases (find_path text caseless r.cache_path q.paths)) [
    | inl e ↦ absurd (ground (arith, e, h))
    | inr (path, e) ↦
        let passed : is_ok (enqueue_at text caseless slab ns_slab r ns path q).rc ≡ true =
          ground (arith, e, h) in
        let (addr, found) = enqueue_at-find r ns path q passed in
        let step : (enqueue text caseless slab ns_slab r ns q).queue
            ≡ (enqueue_at text caseless slab ns_slab r ns path q).queue =
          ground (arith, e, h) in
        (path, addr, e, ap (λ x. find path (lookup_key ns r) x.index) step ∙ found)
  ]

  after_enqueue-success :
      (ns : Option (Namespace T)) (rc : Rc)
      → after_enqueue ns rc ≡ answered (success ns)
      → is_ok rc ≡ true
  unfolding after_enqueue
  after_enqueue-success ns ok h = refl
  after_enqueue-success none error h = absurd (grind (arith, h))
  after_enqueue-success (some n) error h = absurd (grind (arith, h))
  after_enqueue-success none again h = absurd (grind (arith, h))
  after_enqueue-success (some n) again h = absurd (grind (arith, h))
  after_enqueue-success none busy h = absurd (grind (arith, h))
  after_enqueue-success (some n) busy h = absurd (grind (arith, h))
  after_enqueue-success none done h = absurd (grind (arith, h))
  after_enqueue-success (some n) done h = absurd (grind (arith, h))
  after_enqueue-success none declined h = absurd (grind (arith, h))
  after_enqueue-success (some n) declined h = absurd (grind (arith, h))
  after_enqueue-success none abort h = absurd (grind (arith, h))
  after_enqueue-success (some n) abort h = absurd (grind (arith, h))

  success_not_invalid :
      (ns : Option (Namespace T)) → answered invalid_selector ≢ answered (success ns)
  success_not_invalid none h = grind (arith, h)
  success_not_invalid (some n) h = grind (arith, h)

  -- When dispatch answers accepted (invalidated for a location with a namespace), a task under the
  -- key of the request is in the tree of the path of its cache.
  pub dispatch_queued :
      (m : Mode) (r : Request) (ns : Option (Namespace T)) (q : Queue S)
      → (dispatch text caseless slab ns_slab m r ns q).0 ≡ answered (success ns)
      → (path : ℕ) × (addr : ℕ) × (find_path text caseless r.cache_path q.paths ≡ some path)
        × (find path (lookup_key ns r) (dispatch text caseless slab ns_slab m r ns q).1.index
            ≡ some addr)
  unfolding dispatch
  dispatch_queued m r ns q h = elim (Bool-cases (is_too_long m ns r)) [
    | inl long ↦ absurd (success_not_invalid ns (sym (rw (long, dispatch) refl) ∙ h))
    | inr short ↦ elim (Bool-cases (is_background m ns r)) [
      | inr front ↦ absurd (ground (arith, short, front, h))
      | inl back ↦ elim (Bool-cases m.refresh) [
        | inl refresh ↦ absurd (ground (arith, short, refresh, h))
        | inr plain ↦
            let admitted =
              after_enqueue-success ns (enqueue text caseless slab ns_slab r ns q).rc
                (sym (rw (short, back, plain, dispatch) refl) ∙ h) in
            let (path, addr, e, found) = enqueue-find r ns q admitted in
            (path, addr, e, rw (short, back, plain, dispatch) found)
      ]
    ]
  ]
