-- ===== src/Config/Bound.antt =====
-- The locations that show the status of the queue, from the configuration to the shared memory.
use mathlib.Core.Path.{subst}
use mathlib.Core.List.{Mem, mem-cons_self, mem-cons_of_mem}
use ngx_cache_purge.Prelude.{
  ℕ, zero, suc, ◌+◌, ◌≤◌, ◌≡◌, refl, sym, ap, Bool, true, false, ◌&&◌, List, [], ◌∷◌, Option, some,
  length, take, Bool-cases, Option-cases, inl, inr, arith,
}
use ngx_cache_purge.Ngx.{Text, Slab, ok}
use ngx_cache_purge.FilePath.{path_length, path_equal, trim_length}
use ngx_cache_purge.Generation.State.{is_some}
use ngx_cache_purge.Queue.Counts.{All}
use ngx_cache_purge.Queue.State.{CachePath, Queue}
use ngx_cache_purge.Queue.Paths.{
  Registered, is_named, find_path, path_get, no_path, bind_caches, bind_locations,
}
use ngx_cache_purge.Config.Known.{
  NamespaceZone, Phases, names_cache, is_known, are_known, postconfiguration,
}
use ngx_cache_purge.Config.Zone.{OldZone}

trim_length-le : (path : List ℕ) (n : ℕ) → trim_length path n ≤ n
unfolding trim_length
trim_length-le path zero = omega arith
trim_length-le path (suc n) = ground (arith, trim_length-le path n)

length-take : (n : ℕ) (xs : List ℕ) → n ≤ length xs → length (take n xs) ≡ n
length-take zero xs h = refl
length-take (suc n) [] h = absurd (omega (arith, h))
length-take (suc n) (x ∷ xs) h = ap suc (length-take n xs (omega (arith, h)))

module _ (text : Text) (caseless : Bool) where
  path_equal-take :
      (n : ℕ) (xs : List ℕ) → n ≤ length xs → path_equal text caseless (take n xs) xs n ≡ true
  unfolding path_equal
  path_equal-take zero xs h = refl
  path_equal-take (suc n) [] h = absurd (omega (arith, h))
  path_equal-take (suc n) (x ∷ xs) h = ground (arith, path_equal-take n xs (omega (arith, h)))

  -- Two names that agree with a third.
  path_equal_both :
      (a b c : List ℕ) (n : ℕ)
      → path_equal text caseless a c n ≡ true
      → path_equal text caseless b c n ≡ true
      → path_equal text caseless a b n ≡ true
  unfolding path_equal
  path_equal_both a b c zero h k = refl
  path_equal_both [] b c (suc n) h k = cc
  path_equal_both (x ∷ a) [] c (suc n) h k = cc
  path_equal_both (x ∷ a) (y ∷ b) [] (suc n) h k = cc
  path_equal_both (x ∷ a) (y ∷ b) (z ∷ c) (suc n) h k =
      let ih = path_equal_both a b c n in ground (arith, h, k, ih)

  -- The queue has a record for a directory.
  abbrev HasPath : List ℕ → List CachePath → Type 0
  HasPath name paths = is_some (find_path text caseless name paths) ≡ true

  -- A record at an address has the name of a directory, up to trailing separators.
  abbrev pub HasRecord : List ℕ → ℕ → List CachePath → Type 0
  HasRecord name a paths =
      (p : CachePath) × Mem p paths
      × (p.addr ≡ a)
      × (length p.name ≡ path_length name)
      × (path_equal text caseless p.name name (length p.name) ≡ true)

  abbrev pub BoundTo : List (List ℕ) → List ℕ → List CachePath → Type 0
  BoundTo [] [] paths = Unit
  BoundTo (name ∷ names) (a ∷ addrs) paths = HasRecord name a paths × BoundTo names addrs paths
  BoundTo _ _ paths = ⊥

  find_path-HasRecord :
      (name : List ℕ) (paths : List CachePath) (a : ℕ)
      → find_path text caseless name paths ≡ some a
      → HasRecord name a paths
  unfolding find_path
  find_path-HasRecord name [] a h = absurd (grind (arith, h))
  find_path-HasRecord name (p ∷ paths) a h = elim (Bool-cases (is_named text caseless name p)) [
    | inl e ↦ (p, mem-cons_self, ground (arith, e, h), ground (arith, e), ground (arith, e))
    | inr e ↦
        let (x, listed, addr, size, same) = find_path-HasRecord name paths a (rw e at h) in
        (x, mem-cons_of_mem p listed, addr, size, same)
  ]

  HasPath-cons :
      (name : List ℕ) (p : CachePath) (paths : List CachePath)
      → HasPath name paths
      → HasPath name (p ∷ paths)
  unfolding find_path
  HasPath-cons name p paths h = ground (arith, h)

  -- A directory by another spelling of its name: `other` is trimmed and agrees with `name`.
  HasPath-other :
      (name other : List ℕ) (paths : List CachePath)
      → length other ≡ path_length name
      → path_length other ≡ length other
      → path_equal text caseless other name (path_length name) ≡ true
      → HasPath name paths
      → HasPath other paths
  unfolding find_path
  HasPath-other name other [] l t e h = h
  HasPath-other name other (p ∷ paths) l t e h = elim (Bool-cases (is_named text caseless name p)) [
    | inr differs ↦
        HasPath-cons other p paths
          (HasPath-other name other paths l t e (ground (arith, differs, h)))
    | inl same ↦
        let size : length p.name ≡ path_length name = ground (arith, same) in
        let agree : path_equal text caseless p.name name (length p.name) ≡ true =
          ground (arith, same) in
        let both =
          path_equal_both p.name other name (length p.name) agree
            (subst (λ n. path_equal text caseless other name n ≡ true) (sym size) e) in
        let named : is_named text caseless other p ≡ true = ground (arith, both, size, l, t) in
        rw named refl
  ]

  -- The record that is made for a directory.
  HasPath-new :
      (name : List ℕ) (addr : ℕ) (paths : List CachePath)
      → HasPath name (record { addr = addr; name = take (path_length name) name } ∷ paths)
  unfolding find_path path_length
  HasPath-new name addr paths =
      let le = trim_length-le name (length name) in
      let size = length-take (path_length name) name le in
      let agree = path_equal-take (path_length name) name le in ground (arith, size, agree)

  module _ {S : Type 0} (slab : Slab S) (sizeof_path : ℕ) where
    abbrev get : List ℕ → Queue S → Option ℕ × Queue S
    get = path_get text caseless slab sizeof_path

    path_get-HasPath :
        (name : List ℕ) (q : Queue S) (a : ℕ)
        → (get name q).0 ≡ some a
        → HasPath name (get name q).1.paths × (no_path sizeof_path (path_length name) ≡ false)
    unfolding path_get
    path_get-HasPath name q a h = elim (Bool-cases (no_path sizeof_path (path_length name))) [
      | inl empty ↦ absurd (grind (arith, rw empty at h))
      | inr long ↦ elim (Option-cases (find_path text caseless name q.paths)) [
        | inr (old, found) ↦ (rw (long, found) (rw found refl), long)
        | inl new ↦
            elim (Option-cases (slab.calloc (sizeof_path + path_length name + 1) q.shpool)) [
              | inl full ↦ absurd (grind (arith, rw (long, new, full) at h))
              | inr (got, room) ↦ (rw (long, new, room) (HasPath-new name got.0 q.paths), long)
            ]
      ]
    ]

    path_get_keeps :
        (name other : List ℕ) (q : Queue S)
        → HasPath other q.paths
        → HasPath other (get name q).1.paths
    unfolding path_get
    path_get_keeps name other q h = elim (Bool-cases (no_path sizeof_path (path_length name))) [
      | inl empty ↦ rw empty h
      | inr long ↦ elim (Option-cases (find_path text caseless name q.paths)) [
        | inr (old, found) ↦ rw (long, found) h
        | inl new ↦
            elim (Option-cases (slab.calloc (sizeof_path + path_length name + 1) q.shpool)) [
              | inl full ↦ rw (long, new, full) h
              | inr (got, room) ↦
                  rw (long, new, room)
                    (HasPath-cons other
                      (record { addr = got.0; name = take (path_length name) name }) q.paths h)
            ]
      ]
    ]

    bind_caches_keeps :
        (paths : List Registered) (other : List ℕ) (q q' : Queue S)
        → bind_caches text caseless slab sizeof_path paths q ≡ (ok, q')
        → HasPath other q.paths
        → HasPath other q'.paths
    unfolding bind_caches
    bind_caches_keeps [] other q q' e h = subst (λ x. HasPath other x.paths) (ap (λ x. x.1) e) h
    bind_caches_keeps (p ∷ paths) other q q' e h =
        elim (Bool-cases (p.has_manager && p.has_loader)) [
          | inr skip ↦ bind_caches_keeps paths other q q' (rw skip at e) h
          | inl cache ↦ elim (Option-cases (get p.name q).0) [
            | inl nil ↦ absurd (grind (arith, rw (cache, nil) at e))
            | inr (a, found) ↦
                bind_caches_keeps paths other (get p.name q).1 q' (rw (cache, found) at e)
                  (path_get_keeps p.name other q h)
          ]
        ]

    -- A cache that is registered has a record afterwards, by every name that agrees with it.
    bind_caches-HasPath :
        (paths : List Registered) (name : List ℕ) (q q' : Queue S)
        → is_known text caseless name paths ≡ true
        → path_length name ≡ length name
        → bind_caches text caseless slab sizeof_path paths q ≡ (ok, q')
        → HasPath name q'.paths × (no_path sizeof_path (path_length name) ≡ false)
    unfolding bind_caches is_known
    bind_caches-HasPath [] name q q' known t e = cc
    bind_caches-HasPath (p ∷ paths) name q q' known t e =
        elim (Bool-cases (p.has_manager && p.has_loader)) [
          | inr skip ↦
              bind_caches-HasPath paths name q q' (ground (arith, known, skip)) t (rw skip at e)
          | inl cache ↦ elim (Option-cases (get p.name q).0) [
            | inl nil ↦ absurd (grind (arith, rw (cache, nil) at e))
            | inr (a, found) ↦ elim (Bool-cases (names_cache text caseless name p)) [
              | inr differs ↦
                  bind_caches-HasPath paths name (get p.name q).1 q'
                    (ground (arith, known, differs)) t (rw (cache, found) at e)
              | inl same ↦
                  let (has, long) = path_get-HasPath p.name q a found in
                  let size : length name ≡ path_length p.name = ground (arith, same) in
                  let agree : path_equal text caseless name p.name (path_length p.name) ≡ true =
                    ground (arith, same) in
                  (
                    bind_caches_keeps paths name (get p.name q).1 q' (rw (cache, found) at e)
                        (HasPath-other p.name name (get p.name q).1.paths size t agree has),
                    rw (t, size) long,
                  )
            ]
          ]
        ]

    get_old :
        (name : List ℕ) (q : Queue S)
        → HasPath name q.paths
        → no_path sizeof_path (path_length name) ≡ false
        → (a : ℕ) × (get name q ≡ (some a, q)) × HasRecord name a q.paths
    unfolding path_get
    get_old name q h long = elim (Option-cases (find_path text caseless name q.paths)) [
      | inl nil ↦ absurd (ground (arith, nil, h))
      | inr (a, found) ↦ (a, rw (long, found) refl, find_path-HasRecord name q.paths a found)
    ]

    bind_locations_old :
        (names : List (List ℕ)) (q : Queue S)
        → All
            (λ name. HasPath name q.paths × (no_path sizeof_path (path_length name) ≡ false))
            names
        → (addrs : List ℕ) × (bind_locations text caseless slab sizeof_path names q
            ≡ (some addrs, q))
          × BoundTo names addrs q.paths
    unfolding bind_locations
    bind_locations_old [] q h = ([], refl, tt)
    bind_locations_old (name ∷ names) q ((has, long), h) =
        let (a, found, named) = get_old name q has long in
        let (addrs, rest, bound) = bind_locations_old names q h in
        (
          a ∷ addrs,
          rw (found, bind_locations) (rw found (rw rest (rw found (rw rest refl)))),
          (named, bound),
        )

    known_bound :
        (names : List (List ℕ)) (paths : List Registered) (q q' : Queue S)
        → are_known text caseless names paths ≡ true
        → All (λ name. path_length name ≡ length name) names
        → bind_caches text caseless slab sizeof_path paths q ≡ (ok, q')
        → All
            (λ name. HasPath name q'.paths × (no_path sizeof_path (path_length name) ≡ false))
            names
    unfolding are_known
    known_bound [] paths q q' known t e = tt
    known_bound (name ∷ names) paths q q' known (t, ts) e = (
      bind_caches-HasPath paths name q q' (ground (arith, known)) t e,
      known_bound names paths q q' (ground (arith, known)) ts e,
    )

    -- When a configuration is accepted, whose locations that show the status have trimmed names, and
    -- the caches are registered in the shared memory, then every such location is bound to a record
    -- that is there already and has the name of its directory: no memory is needed for it, and the
    -- binding does not fail.
    pub postconfiguration_bound :
        (rooms : Bool × Bool) (has_shm_zone : Bool) (namespaces : List NamespaceZone)
        (zones : List OldZone) (names : List (List ℕ)) (paths : List Registered) (phases : Phases)
        (q q' : Queue S)
        → postconfiguration text caseless rooms has_shm_zone namespaces zones names paths
          ≡ some phases
        → All (λ name. path_length name ≡ length name) names
        → bind_caches text caseless slab sizeof_path paths q ≡ (ok, q')
        → (addrs : List ℕ) × (bind_locations text caseless slab sizeof_path names q'
            ≡ (some addrs, q'))
          × BoundTo names addrs q'.paths
    unfolding postconfiguration
    postconfiguration_bound rooms has_shm_zone namespaces zones names paths phases q q' h t e =
        let known : are_known text caseless names paths ≡ true =
          elim (Bool-cases (are_known text caseless names paths)) [
            | inl k ↦ k
            | inr k ↦ absurd (ground (arith, k, h))
          ] in
        bind_locations_old names q' (known_bound names paths q q' known t e)
