-- ===== src/Config/Sizing.antt =====
-- The zone of the queue holds what its size was computed for.
use native.Mathlib.Nat.{div-add-mod', mod-lt, mul-mod_left, le-div_iff_mul-le}
use ngx_cache_purge.Prelude.{
  ℕ, ◌+◌, ◌-◌, ◌*◌, ◌/◌, ◌%◌, ◌≤◌, ◌<◌, ◌≡◌, Bool, true, false, ◌&&◌, ◌||◌, not, List, [], ◌∷◌,
  none, some, ltb, if◌then◌else◌, length, u64, Bool-cases, Option-cases, inl, inr, arith,
}
use ngx_cache_purge.Queue.Counts.{All}
use ngx_cache_purge.Queue.Paths.{Registered}
use ngx_cache_purge.Reply.Body.{size_max}
use ngx_cache_purge.Config.Zone.{
  Sizes, align, stride, line, path_bytes, add_metadata, shm_min_pages, at_least_pages, zone_size,
}

abbrev is_cache : Registered → Bool
is_cache p = p.has_manager && p.has_loader

-- A number above 0 to which a size is rounded up.
align_lem :
    (d a : ℕ)
    → 0 < a
    → d + (a - 1) < u64
    → (d ≤ align d a) × (align d a % a ≡ 0) × (align d a < u64)
align_lem d a pos lt =
    let whole : (d + (a - 1)) % u64 ≡ d + (a - 1) = omega (arith, lt) in
    rw whole (
      omega (arith, pos, div-add-mod' (d + (a - 1)) a, mod-lt (d + (a - 1)) pos),
      mul-mod_left ((d + (a - 1)) / a) a,
      omega (arith, pos, lt, div-add-mod' (d + (a - 1)) a),
    )

some_inj : {a b : ℕ} → some a ≡ some b → a ≡ b
some_inj h = cc

module _ (s : Sizes) where
  -- The bytes of the record of a path and its counters, without a wrap-around.
  abbrev pub bytes_of : List ℕ → ℕ
  bytes_of name =
      align s.sizeof_stats (line s) * s.max_processes + line s + s.sizeof_path + length name + 1

  -- Twice the bytes of all caches.
  abbrev pub all_bytes : List Registered → ℕ
  all_bytes [] = 0
  all_bytes (p ∷ paths) =
      if p.has_manager && p.has_loader
      then 2 * bytes_of p.name + all_bytes paths
      else all_bytes paths

  -- The page is not empty, and single structures are numbers of the machine.
  pub record IsMachine (paths : List Registered) : Type 0 where
    pub page_pos : 0 < s.pagesize
    pub queue_lt : s.pagesize + s.sizeof_queue < u64
    pub pages_lt : shm_min_pages * s.pagesize < u64
    pub bytes_lt : All (λ p. bytes_of p.name < u64) paths

  -- The test that keeps two more numbers within a word.
  room_lem : (b m : ℕ) → m ≤ size_max → ltb ((size_max - m) / 2) b ≡ false → m + 2 * b ≤ size_max
  room_lem b m le h = ground (arith, h, le)

  add_metadata_lem :
      (paths : List Registered) (m m' : ℕ)
      → All (λ p. bytes_of p.name < u64) paths
      → m ≤ size_max
      → add_metadata s paths m ≡ some m'
      → (m' ≡ m + all_bytes paths) × (m' ≤ size_max)
  unfolding add_metadata
  add_metadata_lem [] m m' small le h = ground (arith, h, le)
  add_metadata_lem (p ∷ paths) m m' (lt, small) le h =
      elim (Bool-cases (not p.has_manager || not p.has_loader)) [
        | inl skip ↦
            let none_of : (p.has_manager && p.has_loader) ≡ false = ground (arith, skip) in
            rw none_of (add_metadata_lem paths m m' small le (rw skip at h))
        | inr cache ↦
            let both : (p.has_manager && p.has_loader) ≡ true = ground (arith, cache) in
            elim (Bool-cases (ltb ((size_max - m) / 2) (path_bytes s p.name))) [
              | inl over ↦ absurd (grind (arith, rw (cache, over) at h))
              | inr fits ↦
                  let whole : path_bytes s p.name ≡ bytes_of p.name = omega (arith, lt) in
                  let le' : m + 2 * bytes_of p.name ≤ size_max =
                    room_lem (bytes_of p.name) m le (rw whole at fits) in
                  let sum : (m + 2 * path_bytes s p.name) % u64 ≡ m + 2 * bytes_of p.name =
                    rw whole (omega (arith, le')) in
                  let (eq, small') =
                    add_metadata_lem paths (m + 2 * bytes_of p.name) m' small le'
                      (rw sum at (rw (cache, fits) at h)) in
                  rw both (omega (arith, eq), small')
            ]
      ]

  at_least_pages_lem :
      (paths : List Registered) (size : ℕ)
      → IsMachine paths
      → size % s.pagesize ≡ 0
      → size < u64
      → (size ≤ at_least_pages s size)
        × (at_least_pages s size % s.pagesize ≡ 0)
        × (at_least_pages s size < u64)
  at_least_pages_lem paths size h whole lt =
      elim (Bool-cases (ltb size (shm_min_pages * s.pagesize))) [
        | inl e ↦ rw e (ground (arith, e), mul-mod_left shm_min_pages s.pagesize, h.pages_lt)
        | inr e ↦ rw e (omega arith, whole, lt)
      ]

  -- The parts of the size, each below the rest of a word.
  parts_lem :
      (p sq k q : ℕ)
      → 0 < p
      → p + sq < u64
      → 0 < k
      → ltb ((size_max - (p - 1) - sq) / k) q ≡ false
      → sq + q * k + (p - 1) ≤ size_max
  parts_lem p sq k q pos lt k_pos h =
      let le : q ≤ (size_max - (p - 1) - sq) / k = ground (arith, h) in
      let product : q * k ≤ size_max - (p - 1) - sq = (le-div_iff_mul-le k_pos).0 le in
      omega (arith, product, lt, pos)

  sums_lem :
      (p shm metadata : ℕ)
      → 0 < p
      → (ltb (size_max - (p - 1)) metadata || ltb (size_max - metadata - (p - 1)) shm) ≡ false
      → p < u64
      → shm + metadata + (p - 1) ≤ size_max
  sums_lem p shm metadata pos h lt = ground (arith, h, lt)

  -- The last steps, from the two sums on.
  summed :
      (queue_size size metadata : ℕ) (paths : List Registered)
      → IsMachine paths
      → metadata ≡ 0 + all_bytes paths
      → (s.sizeof_queue + queue_size * stride s) % u64 ≡ s.sizeof_queue + queue_size * stride s
      → (if ltb (size_max - (s.pagesize - 1)) metadata
            || ltb
                (size_max - metadata - (s.pagesize - 1))
                ((s.sizeof_queue + queue_size * stride s) % u64)
          then none
          else some (
              at_least_pages s (
                align
                  (((s.sizeof_queue + queue_size * stride s) % u64 + metadata) % u64)
                  s.pagesize)))
        ≡ some size
      → (s.sizeof_queue + queue_size * stride s + all_bytes paths ≤ size)
        × (size % s.pagesize ≡ 0)
        × (size < u64)
  summed queue_size size metadata paths h all whole accepted =
      let shm = s.sizeof_queue + queue_size * stride s in
      let test =
        ltb (size_max - (s.pagesize - 1)) metadata
        || ltb (size_max - metadata - (s.pagesize - 1)) (shm % u64) in
      elim (Bool-cases test) [
        | inl over ↦ absurd (grind (arith, rw over at accepted))
        | inr fits ↦
            let lt : s.pagesize < u64 = omega (arith, h.queue_lt) in
            let sum = sums_lem s.pagesize (shm % u64) metadata h.page_pos fits lt in
            let total = (shm % u64 + metadata) % u64 in
            let same : total ≡ shm + all_bytes paths = omega (arith, sum, all, whole, h.page_pos) in
            let (le, pages, small) =
              align_lem total s.pagesize h.page_pos (omega (arith, sum, h.page_pos)) in
            let (le', pages', small') =
              at_least_pages_lem paths (align total s.pagesize) h pages small in
            let size_lem : at_least_pages s (align total s.pagesize) ≡ size =
              some_inj (rw fits at accepted) in
            rw (← size_lem) (omega (arith, le, le', same), pages', small')
      ]

  -- A size that the configuration gives the zone, with sizes of the structures that are numbers of
  -- the machine, is at least what the queue, the tasks and twice the records of the caches take
  -- when counted without a wrap-around; it is a whole number of pages, and a number of the machine.
  pub zone_size-fits :
      (queue_size size : ℕ) (paths : List Registered)
      → IsMachine paths
      → zone_size s queue_size paths ≡ some size
      → (s.sizeof_queue + queue_size * stride s + all_bytes paths ≤ size)
        × (size % s.pagesize ≡ 0)
        × (size < u64)
  unfolding zone_size
  zone_size-fits queue_size size paths h accepted =
      let p = s.pagesize in
      let limit = (size_max - (p - 1) - s.sizeof_queue) / stride s in
      elim (Bool-cases (ltb limit queue_size)) [
        | inl over ↦ absurd (grind (arith, rw over at accepted))
        | inr fits ↦ elim (Option-cases (add_metadata s paths 0)) [
          | inl nil ↦ absurd (grind (arith, rw (fits, nil) at accepted))
          | inr (metadata, found) ↦
              let (all, small) = add_metadata_lem paths 0 metadata h.bytes_lt (omega arith) found in
              let tasks =
                parts_lem p s.sizeof_queue (stride s) queue_size h.page_pos h.queue_lt (omega arith)
                  fits in
              let shm = s.sizeof_queue + queue_size * stride s in
              let whole : shm % u64 ≡ shm = omega (arith, tasks) in
              summed queue_size size metadata paths h all whole (rw (fits, found) at accepted)
        ]
      ]
