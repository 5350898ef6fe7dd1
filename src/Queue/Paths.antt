-- ===== src/Queue/Paths.antt =====
-- The paths of the queue: `ngx_http_cache_purge_path_get`, the binding of the configured paths, and
-- `ngx_http_cache_purge_log`, which counts for a path.
use ngx_cache_purge.Prelude.{
  ℕ, ◌+◌, ◌-◌, ◌||◌, ltb, u64, Bool, ◌&&◌, List, [], ◌∷◌, Option, none, some, ◌==◌, if◌then◌else◌,
  length, take,
}
use ngx_cache_purge.Ngx.{Text, Slab, Rc, ok, error}
use ngx_cache_purge.FilePath.{path_length, path_equal}
use ngx_cache_purge.Queue.Task.{hit, miss}
use ngx_cache_purge.Queue.State.{CachePath, Queue, stat_add}

-- A path whose last registration in the configuration is a cache.
pub record Registered : Type 0 where
  pub name : List ℕ
  pub has_manager : Bool
  pub has_loader : Bool

-- `r->upstream->cache_status`.
pub data CacheStatus : Type 0 where
  cache_hit cache_miss cache_other : CacheStatus

-- `len == 0 || len > (size_t) -1 - sizeof(*path) - 1`.
abbrev pub no_path : ℕ → ℕ → Bool
no_path sizeof_path len = len == 0 || ltb (u64 - 1 - sizeof_path - 1) len

module _ (text : Text) (caseless : Bool) where
  abbrev pub is_named : List ℕ → CachePath → Bool
  is_named name p =
      length p.name == path_length name && path_equal text caseless p.name name (length p.name)

  -- The path whose name is the directory's.
  unfoldable pub find_path : List ℕ → List CachePath → Option ℕ
  find_path name [] = none
  find_path name (p ∷ paths) = if is_named name p then some p.addr else find_path name paths

  -- `ngx_http_cache_purge_log` of a main request that went through the cache of the directory.
  unfoldable pub log : {S : Type 0} → Option ℕ → CacheStatus → List ℕ → Queue S → Queue S
  log slot status name q = elim (find_path name q.paths) [
    | none ↦ q
    | some path ↦ elim status [
      | CacheStatus.cache_hit ↦ record q { stats = stat_add slot (some path) hit 1 q.stats }
      | CacheStatus.cache_miss ↦ record q { stats = stat_add slot (some path) miss 1 q.stats }
      | CacheStatus.cache_other ↦ q
    ]
  ]

module _ {S : Type 0} (text : Text) (caseless : Bool) (slab : Slab S) (sizeof_path : ℕ) where
  -- `sizeof_path` is the size of the structure with the counters of all slots, without the name.
  unfoldable pub path_get : List ℕ → Queue S → Option ℕ × Queue S
  path_get name q =
      let len = path_length name in
      if no_path sizeof_path len then (none, q) else elim (find_path text caseless name q.paths) [
        | some path ↦ (some path, q)
        | none ↦ elim (slab.calloc (sizeof_path + len + 1) q.shpool) [
          | none ↦ (none, q)
          | some (addr, pool) ↦ (
            some addr,
            record q {
              paths = record { addr = addr; name = take len name } ∷ q.paths;
              shpool = pool;
            },
          )
        ]
      ]

  -- `ngx_http_cache_purge_bind_queue_status`: the caches, and then the directories of the status
  -- locations.
  unfoldable pub bind_caches : List Registered → Queue S → Rc × Queue S
  bind_caches [] q = (ok, q)
  bind_caches (p ∷ paths) q =
      let (path, q') = path_get p.name q in
      let skipped = bind_caches paths q in
      let next = bind_caches paths q' in
      if p.has_manager && p.has_loader
      then elim path [ none ↦ (error, q') | some a ↦ next ]
      else skipped

  unfoldable pub bind_locations : List (List ℕ) → Queue S → Option (List ℕ) × Queue S
  bind_locations [] q = (some [], q)
  bind_locations (name ∷ names) q =
      let (path, q') = path_get name q in
      let (bound, q'') = bind_locations names q' in
      elim path [
        | none ↦ (none, q')
        | some a ↦ elim bound [ none ↦ (none, q'') | some addrs ↦ (some (a ∷ addrs), q'') ]
      ]
