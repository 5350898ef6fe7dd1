-- ===== src/Queue/Attach/Kept.antt =====
-- What binding the paths and the protection of a configuration leaves as it is.

use ngx_cache_purge.Prelude.{
  ℕ, ◌+◌, ◌≡◌, refl, ◌∙◌, inl, inr, Bool, true, ◌&&◌, List, [], ◌∷◌, some, ◌==◌, Bool-cases,
  Option-cases,
}
use ngx_cache_purge.Ngx.{Text, Slab, SlabLaws, is_ok}
use ngx_cache_purge.FilePath.{path_length}
use ngx_cache_purge.Queue.State.{Queue, CachePath}
use ngx_cache_purge.Queue.Paths.{
  Registered, path_get, no_path, find_path, bind_caches, bind_locations,
}
use ngx_cache_purge.Queue.Attach.{
  Attached, protection_get, protection_size, plain_names, find_protection, bind_queue_status,
}

-- `q'` has the tasks of `q`, and memory that keeps what was in use.
pub record Keeps {S : Type 0} (held : S → ℕ → Bool) (q q' : Queue S) : Type 0 where
  pub pending : q'.pending ≡ q.pending
  pub active : q'.active ≡ q.active
  pub size : q'.size ≡ q.size
  pub running : q'.running ≡ q.running
  pub max_size : q'.max_size ≡ q.max_size
  pub index : q'.index ≡ q.index
  pub grown : (b : ℕ) → held q.shpool b ≡ true → held q'.shpool b ≡ true

module _ {S : Type 0} (text : Text) (caseless : Bool) (slab : Slab S) (sizeof_path sizeof_str : ℕ)
    (sizeof_protection : ℕ) (laws : SlabLaws slab) where
  open laws use {held, held-calloc}

  Keeps-refl : (q : Queue S) → Keeps held q q
  Keeps-refl q = record {
    pending = refl;
    active = refl;
    size = refl;
    running = refl;
    max_size = refl;
    index = refl;
    grown = λ b h. h;
  }

  pub Keeps-trans : (a b c : Queue S) → Keeps held a b → Keeps held b c → Keeps held a c
  Keeps-trans a b c h k = record {
    pending = k.pending ∙ h.pending;
    active = k.active ∙ h.active;
    size = k.size ∙ h.size;
    running = k.running ∙ h.running;
    max_size = k.max_size ∙ h.max_size;
    index = k.index ∙ h.index;
    grown = λ x used. k.grown x (h.grown x used);
  }

  calloc_grows :
      (n : ℕ) (s : S) (addr : ℕ) (s' : S)
      → slab.calloc n s ≡ some (addr, s')
      → (b : ℕ) → held s b ≡ true
      → held s' b ≡ true
  calloc_grows n s addr s' e b h = elim (Bool-cases (b == addr)) [
    | inl same ↦ held-calloc n s addr s' b e ∙ rw same refl
    | inr other ↦ held-calloc n s addr s' b e ∙ rw other h
  ]

  -- Only the pool and the records of paths change.
  calloc-Keeps :
      (n : ℕ) (q : Queue S) (addr : ℕ) (pool : S) (paths : List CachePath)
      → slab.calloc n q.shpool ≡ some (addr, pool)
      → Keeps held q (record q { paths = paths; shpool = pool })
  calloc-Keeps n q addr pool paths e = record {
    pending = refl;
    active = refl;
    size = refl;
    running = refl;
    max_size = refl;
    index = refl;
    grown = calloc_grows n q.shpool addr pool e;
  }

  path_get-Keeps :
      (name : List ℕ) (q : Queue S)
      → Keeps held q (path_get text caseless slab sizeof_path name q).1
  unfolding path_get
  path_get-Keeps name q = elim (Bool-cases (no_path sizeof_path (path_length name))) [
    | inl t ↦ rw t (Keeps-refl q)
    | inr t ↦ elim (Option-cases (find_path text caseless name q.paths)) [
      | inr (a, found) ↦ rw (t, found) (Keeps-refl q)
      | inl new ↦ elim (Option-cases (slab.calloc (sizeof_path + path_length name + 1) q.shpool)) [
        | inl e ↦ rw (t, new, e) (Keeps-refl q)
        | inr ((addr, pool), e) ↦
            rw (t, new, e) (calloc-Keeps (sizeof_path + path_length name + 1) q addr pool _ e)
      ]
    ]
  ]

  bind_caches-Keeps :
      (paths : List Registered) (q : Queue S)
      → Keeps held q (bind_caches text caseless slab sizeof_path paths q).1
  unfolding bind_caches
  bind_caches-Keeps [] q = Keeps-refl q
  bind_caches-Keeps (p ∷ paths) q =
      let q' = (path_get text caseless slab sizeof_path p.name q).1 in
      let first = path_get-Keeps p.name q in
      elim (Bool-cases (p.has_manager && p.has_loader)) [
        | inr skip ↦ rw skip (bind_caches-Keeps paths q)
        | inl cache ↦ elim (Option-cases (path_get text caseless slab sizeof_path p.name q).0) [
          | inl e ↦ rw (cache, e) first
          | inr (a, e) ↦
              rw (cache, e)
                (Keeps-trans q q' (bind_caches text caseless slab sizeof_path paths q').1 first
                  (bind_caches-Keeps paths q'))
        ]
      ]

  bind_locations-Keeps :
      (names : List (List ℕ)) (q : Queue S)
      → Keeps held q (bind_locations text caseless slab sizeof_path names q).1
  unfolding bind_locations
  bind_locations-Keeps [] q = Keeps-refl q
  bind_locations-Keeps (name ∷ names) q =
      let q' = (path_get text caseless slab sizeof_path name q).1 in
      let first = path_get-Keeps name q in
      let both =
        Keeps-trans q q' (bind_locations text caseless slab sizeof_path names q').1 first
          (bind_locations-Keeps names q') in
      elim (Option-cases (path_get text caseless slab sizeof_path name q).0) [
        | inl e ↦ rw (e, bind_locations) first
        | inr (a, e) ↦
            elim (Option-cases (bind_locations text caseless slab sizeof_path names q').0) [
              | inl f ↦ rw (e, f, bind_locations) both
              | inr (addrs, f) ↦ rw (e, f, bind_locations) both
            ]
      ]

  pub protection_get-Keeps :
      (paths : List Registered) (a : Attached S)
      → Keeps held a.queue
          (protection_get text caseless slab sizeof_path sizeof_str sizeof_protection paths
            a).1.queue
  unfolding protection_get
  protection_get-Keeps paths a =
      let names = plain_names paths in
      elim (Option-cases (protection_size sizeof_str names sizeof_protection)) [
        | inl e ↦ rw (e, protection_get) (Keeps-refl a.queue)
        | inr (size, e) ↦ elim (Option-cases (find_protection text caseless names a.protections)) [
          | inr (addr, f) ↦ rw (e, f, protection_get) (Keeps-refl a.queue)
          | inl f ↦ elim (Option-cases (slab.calloc size a.queue.shpool)) [
            | inl g ↦ rw (e, f, g, protection_get) (Keeps-refl a.queue)
            | inr ((addr, pool), g) ↦
                rw (e, f, g, protection_get) (calloc-Keeps size a.queue addr pool a.queue.paths g)
          ]
        ]
      ]

  pub bind_queue_status-Keeps :
      (paths : List Registered) (names : List (List ℕ)) (q : Queue S)
      → Keeps held q
          (bind_queue_status text caseless slab sizeof_path sizeof_str sizeof_protection paths names
            q).1
  unfolding bind_queue_status
  bind_queue_status-Keeps paths names q =
      let q' = (bind_caches text caseless slab sizeof_path paths q).1 in
      let first = bind_caches-Keeps paths q in
      elim (Bool-cases (is_ok (bind_caches text caseless slab sizeof_path paths q).0)) [
        | inl e ↦
            rw (e, bind_queue_status)
              (Keeps-trans q q' (bind_locations text caseless slab sizeof_path names q').1 first
                (bind_locations-Keeps names q'))
        | inr e ↦ rw (e, bind_queue_status) first
      ]
