-- ===== src/Config/Zone.antt =====
-- The settings of the whole configuration and the size of the zone of the queue:
-- `ngx_http_cache_purge_create_main_conf` and `ngx_http_cache_purge_init_main_conf`.
use ngx_cache_purge.Prelude.{
  ℕ, ◌+◌, ◌-◌, ◌*◌, ◌/◌, ◌%◌, Bool, false, ◌&&◌, ◌||◌, not, List, [], ◌∷◌, Option, none, some, ltb,
  ◌==◌, if◌then◌else◌, length, codes, bytes_eq, u64, ◌>>=◌,
}
use ngx_cache_purge.Generation.State.{is_some}
use ngx_cache_purge.Queue.Enqueue.{key_max_len}
use ngx_cache_purge.Queue.Paths.{Registered}
use ngx_cache_purge.Reply.Body.{size_max}

-- The numbers of `ngx_http_cache_purge_main_conf_t`, each unset at first.
pub record MainConf : Type 0 where
  pub background_purge : Option Bool
  pub queue_size : Option ℕ
  pub batch_size : Option ℕ
  pub throttle_ms : Option ℕ
  pub vary_aware : Option Bool

abbrev pub fresh_main_conf : MainConf
fresh_main_conf = record {
  background_purge = none;
  queue_size = none;
  batch_size = none;
  throttle_ms = none;
  vary_aware = none;
}

-- The same with defaults.
pub record MainValues : Type 0 where
  pub background_purge : Bool
  pub queue_size : ℕ
  pub batch_size : ℕ
  pub throttle_ms : ℕ
  pub vary_aware : Bool

-- A zone of the cycle before: its address, whether the tag is that of the module, the name and the
-- size.
pub record OldZone : Type 0 where
  pub addr : ℕ
  pub is_own : Bool
  pub name : List ℕ
  pub size : ℕ

-- The sizes of the structures and of the machine.
pub record Sizes : Type 0 where
  pub sizeof_queue : ℕ
  pub sizeof_item : ℕ
  pub sizeof_stats : ℕ
  pub sizeof_path : ℕ
  pub pagesize : ℕ
  pub cacheline_size : ℕ
  pub max_processes : ℕ

-- `ngx_align`, for an alignment that is a power of two.
abbrev pub align : ℕ → ℕ → ℕ
align d a = (d + (a - 1)) % u64 / a * a

abbrev pub max : ℕ → ℕ → ℕ
max a b = if ltb a b then b else a

-- `ngx_conf_init_value` and its kin.
abbrev pub init_value : {A : Type 0} → Option A → A → A
init_value none default = default
init_value (some a) default = a

abbrev pub batch_size_max : ℕ
batch_size_max = 64

abbrev pub shm_min_pages : ℕ
shm_min_pages = 8

abbrev pub throttle_max : ℕ
throttle_max = size_max / 20

unfoldable pub init_values : MainConf → Option MainValues
init_values c =
    let queue_size = init_value c.queue_size 1024 in
    let batch_size = init_value c.batch_size 10 in
    let throttle_ms = init_value c.throttle_ms 10 in
    if queue_size == 0
    then none
    else if batch_size == 0
    then none
    else if throttle_ms == 0 || ltb throttle_max throttle_ms
    then none
    else some (record {
      background_purge = init_value c.background_purge false;
      queue_size = queue_size;
      batch_size = if ltb batch_size_max batch_size then batch_size_max else batch_size;
      throttle_ms = throttle_ms;
      vary_aware = init_value c.vary_aware false;
    })

-- The zone of the queue in the cycle before.
unfoldable pub find_zone : List OldZone → Option OldZone
find_zone [] = none
find_zone (z ∷ zones) =
    if z.is_own && bytes_eq z.name (codes "cache_purge_queue") then some z else find_zone zones

abbrev pub changes_size : Option OldZone → ℕ → Bool
changes_size none size = false
changes_size (some old) size = not (size == old.size)

module _ (s : Sizes) where
  abbrev pub stride : ℕ
  stride = 2 * (s.sizeof_item + 2 * (key_max_len + 1))

  abbrev pub line : ℕ
  line = max s.cacheline_size 64

  abbrev pub path_bytes : List ℕ → ℕ
  path_bytes name =
      (align s.sizeof_stats line * s.max_processes + line + s.sizeof_path + length name + 1) % u64

  -- The loop over the paths; `none` is an overflow.
  unfoldable pub add_metadata : List Registered → ℕ → Option ℕ
  add_metadata [] metadata = some metadata
  add_metadata (p ∷ paths) metadata =
      let bytes = path_bytes p.name in
      let skipped = add_metadata paths metadata in
      let added = add_metadata paths ((metadata + 2 * bytes) % u64) in
      if not p.has_manager || not p.has_loader
      then skipped
      else if ltb ((size_max - metadata) / 2) bytes
      then none
      else added

  abbrev pub at_least_pages : ℕ → ℕ
  at_least_pages size =
      if ltb size (shm_min_pages * s.pagesize) then shm_min_pages * s.pagesize else size

  -- The size of the zone, from the number of tasks and the paths; `none` is an overflow.
  unfoldable pub zone_size : ℕ → List Registered → Option ℕ
  zone_size queue_size paths =
      let shm_size = (s.sizeof_queue + queue_size * stride) % u64 in
      if ltb ((size_max - (s.pagesize - 1) - s.sizeof_queue) / stride) queue_size
      then none
      else (add_metadata paths 0 >>= λ metadata.
          if ltb (size_max - (s.pagesize - 1)) metadata
            || ltb (size_max - metadata - (s.pagesize - 1)) shm_size
          then none
          else some (at_least_pages (align ((shm_size + metadata) % u64) s.pagesize)))

  -- The values, and the size of the zone if there is one; `has_namespaces` and `has_status` say
  -- whether there are namespaces and locations that show the status, `room` whether nginx takes the
  -- zone. `none` is an error.
  unfoldable pub init_main_conf :
      Bool
      → Bool
      → Bool
      → List OldZone
      → List Registered
      → MainConf
      → Option (MainValues × Option ℕ)
  init_main_conf room has_namespaces has_status zones paths conf =
      let old = find_zone zones in
      (init_values conf >>= λ v.
      if not v.background_purge && not has_namespaces && not (is_some old) && not has_status
      then some (v, none)
      else (zone_size v.queue_size paths >>= λ size.
          if changes_size old size || not room then none else some (v, some size)))
