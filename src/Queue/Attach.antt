-- ===== src/Queue/Attach.antt =====
-- The queue when nginx starts or reloads: `ngx_http_cache_purge_init_shm_zone`, with
-- `ngx_http_cache_purge_protection_get` and `ngx_http_cache_purge_bind_queue_status`.
pub mod Kept
pub mod Sound
mod Tests
use ngx_cache_purge.Prelude.{
  ℕ, ◌+◌, ◌-◌, Bool, true, false, ◌&&◌, ◌||◌, not, List, [], ◌∷◌, Option, none, some, ltb, ◌==◌,
  if◌then◌else◌, length, take, u64,
}
use ngx_cache_purge.Ngx.{Text, Slab, Rc, ok, error, is_ok}
use ngx_cache_purge.FilePath.{path_length, path_equal}
use ngx_cache_purge.Queue.State.{Queue}
use ngx_cache_purge.Queue.Paths.{Registered, bind_caches, bind_locations}

-- `ngx_http_cache_purge_protection_t`: the names of the directories that no walk may enter.
pub record Protection : Type 0 where
  pub addr : ℕ
  pub names : List (List ℕ)

-- What the zone holds: the queue, with the chain `queue->protections`.
pub record Attached (S : Type 0) : Type 0 where
  pub queue : Queue S
  pub protections : List Protection

-- The configuration of the cycle before: its capacity and its queue.
pub record OldConf (S : Type 0) : Type 0 where
  pub queue_size : ℕ
  pub queue : Option (Attached S)

-- The memory of a zone: whether the zone exists already, what the head of its pool points at, and
-- the pool.
pub record ShmZone (S : Type 0) : Type 0 where
  pub exists : Bool
  pub head : Option (Attached S)
  pub pool : S

-- `protection` and `bound` are what the configuration keeps: the address of its protection, and those
-- of the paths of the locations that show the status.
pub record Attachment (S : Type 0) : Type 0 where
  pub rc : Rc
  pub queue : Option (Attached S)
  pub protection : Option ℕ
  pub bound : Option (List ℕ)

-- `NGX_CACHE_PURGE_SHM_VERSION`.
abbrev pub shm_version : ℕ
shm_version = 7

-- `ngx_slab_calloc` of a queue, and what follows it.
abbrev pub fresh_queue : {S : Type 0} → S → Queue S
fresh_queue pool = record {
  version = shm_version;
  pending = [];
  active = [];
  size = 0;
  running = 0;
  oldest = 0;
  owners = λ _. 0;
  epochs = λ _. 0;
  probes = λ _. 0;
  max_size = 0;
  paths = [];
  index = [];
  stats = λ _ _ _. 0;
  shpool = pool;
}

-- The paths that are no caches, in the order of the configuration.
unfoldable pub plain_names : List Registered → List (List ℕ)
plain_names [] = []
plain_names (p ∷ paths) =
    let rest = plain_names paths in if p.has_manager || p.has_loader then rest else p.name ∷ rest

-- `sizeof_str` is the size of `ngx_str_t`; `none` is an overflow.
unfoldable pub protection_size : ℕ → List (List ℕ) → ℕ → Option ℕ
protection_size sizeof_str [] size = some size
protection_size sizeof_str (name ∷ names) size =
    let len = path_length name in
    let rest = protection_size sizeof_str names (size + (sizeof_str + len + 1)) in
    if ltb (u64 - 1 - sizeof_str - 1) len || ltb (u64 - 1 - sizeof_str - len - 1) size
    then none
    else rest

-- The copy of the names, without trailing separators.
unfoldable pub copy_names : List (List ℕ) → List (List ℕ)
copy_names [] = []
copy_names (name ∷ names) = take (path_length name) name ∷ copy_names names

module _ (text : Text) (caseless : Bool) where
  unfoldable pub same_names : List (List ℕ) → List (List ℕ) → Bool
  same_names [] [] = true
  same_names [] (name ∷ names) = false
  same_names (kept ∷ rest) [] = false
  same_names (kept ∷ rest) (name ∷ names) =
      length kept == path_length name
      && path_equal text caseless kept name (path_length name)
      && same_names rest names

  unfoldable pub find_protection : List (List ℕ) → List Protection → Option ℕ
  find_protection names [] = none
  find_protection names (p ∷ protections) =
      if same_names p.names names then some p.addr else find_protection names protections

module _ {S : Type 0} (text : Text) (caseless : Bool) (slab : Slab S) (sizeof_path sizeof_str : ℕ)
    (sizeof_protection : ℕ) where
  unfoldable pub protection_get : List Registered → Attached S → Option ℕ × Attached S
  protection_get paths a =
      let names = plain_names paths in
      elim (protection_size sizeof_str names sizeof_protection) [
        | none ↦ (none, a)
        | some size ↦ elim (find_protection text caseless names a.protections) [
          | some addr ↦ (some addr, a)
          | none ↦ elim (slab.calloc size a.queue.shpool) [
            | none ↦ (none, a)
            | some (addr, pool) ↦ (
              some addr,
              record {
                queue = (let q = a.queue in record q { shpool = pool });
                protections = record { addr = addr; names = copy_names names } ∷ a.protections;
              },
            )
          ]
        ]
      ]

  -- The locations are given by the names of their caches.
  unfoldable pub bind_queue_status :
      List Registered → List (List ℕ) → Queue S → Option (List ℕ) × Queue S
  bind_queue_status paths names q =
      let (rc, q') = bind_caches text caseless slab sizeof_path paths q in
      let bound = bind_locations text caseless slab sizeof_path names q' in
      if is_ok rc then bound else (none, q')

  -- What is done under the lock.
  unfoldable pub bind_zone : ℕ → List Registered → List (List ℕ) → Attached S → Attachment S
  bind_zone queue_size paths names a =
      let (protection, a') = protection_get paths a in
      let (bound, q) = bind_queue_status paths names a'.queue in
      let failed : Attached S = record a' { queue = q } in
      let attached : Attached S = record a' { queue = record q { max_size = queue_size } } in
      elim protection [
        | none ↦ record { rc = error; queue = some a'; protection = none; bound = none }
        | some addr ↦ elim bound [
          | none ↦ record { rc = error; queue = some failed; protection = some addr; bound = none }
          | some addrs ↦ record {
            rc = ok;
            queue = some attached;
            protection = some addr;
            bound = some addrs;
          }
        ]
      ]

  -- The check of the version.
  unfoldable pub check_zone :
      ℕ → List Registered → List (List ℕ) → Option (Attached S) → Attachment S
  check_zone queue_size paths names none = record {
    rc = error;
    queue = none;
    protection = none;
    bound = none;
  }
  check_zone queue_size paths names (some a) =
      if not (a.queue.version == shm_version)
      then record { rc = error; queue = some a; protection = none; bound = none }
      else bind_zone queue_size paths names a

  -- `old` is the configuration of the cycle before, if there is one.
  unfoldable pub init_shm_zone :
      ℕ → ℕ → List Registered → List (List ℕ) → Option (OldConf S) → ShmZone S → Attachment S
  init_shm_zone sizeof_queue queue_size paths names none zone =
      if zone.exists
      then check_zone queue_size paths names zone.head
      else elim (slab.calloc sizeof_queue zone.pool) [
        | none ↦ record { rc = error; queue = none; protection = none; bound = none }
        | some (addr, pool) ↦
            check_zone queue_size paths names
              (some (record { queue = fresh_queue pool; protections = [] }))
      ]
  init_shm_zone sizeof_queue queue_size paths names (some old) zone =
      if not (queue_size == old.queue_size)
      then record { rc = error; queue = old.queue; protection = none; bound = none }
      else check_zone queue_size paths names old.queue
