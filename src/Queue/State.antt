-- ===== src/Queue/State.antt =====
-- The shared queue (`ngx_http_cache_purge_queue_s`), the index of its tasks, and the counters.
use ngx_cache_purge.Prelude.{
  ℕ, suc, ◌+◌, ◌-◌, ◌%◌, Bool, ◌&&◌, List, [], ◌∷◌, Option, none, some, ◌==◌, if◌then◌else◌, min,
  u64, bytes_eq,
}
use ngx_cache_purge.Queue.Task.{Task, Metric, Metric-discrete, waiting}
use mathlib.Core.Logic.{ite}

-- `ngx_http_cache_purge_path_t` at the address `addr`.
pub record CachePath : Type 0 where
  pub addr : ℕ
  pub name : List ℕ

-- A node of the tree of a path: the key and the address of the task.
pub record Entry : Type 0 where
  pub path : ℕ
  pub key : List ℕ
  pub addr : ℕ

-- `pending` and `active` are the two lists, head first; `index` has the nodes of the trees of all
-- paths, each with its path. `owners`, `epochs` and `probes` have one value for each process slot,
-- and `stats` the counters of a path in a slot.
pub record Queue (S : Type 0) : Type 0 where
  pub version : ℕ
  pub pending : List Task
  pub active : List Task
  pub size : ℕ
  pub running : ℕ
  pub oldest : ℕ
  pub owners : ℕ → ℕ
  pub epochs : ℕ → ℕ
  pub probes : ℕ → ℕ
  pub max_size : ℕ
  pub paths : List CachePath
  pub index : List Entry
  pub stats : ℕ → ℕ → Metric → ℕ
  pub shpool : S

abbrev pub update {ℓ} : {A : Type ℓ} → (ℕ → A) → ℕ → A → ℕ → A
update f i a j = if j == i then a else f j

abbrev pub update_metric : (Metric → ℕ) → Metric → ℕ → Metric → ℕ
update_metric f m n m' = ite (Metric-discrete m' m) n (f m')

-- `stats->value[field] = old + ngx_min(value, (uint64_t) -1 - old)`.
unfoldable pub saturate : ℕ → ℕ → ℕ
saturate old value = old + min value (u64 - 1 - old)

-- `ngx_http_cache_purge_stat_add`: without a path or a slot there is nothing to count in.
unfoldable pub stat_add :
    Option ℕ → Option ℕ → Metric → ℕ → (ℕ → ℕ → Metric → ℕ) → ℕ → ℕ → Metric → ℕ
stat_add none path field value stats = stats
stat_add (some slot) none field value stats = stats
stat_add (some slot) (some path) field value stats = update stats path (
    update (stats path) slot
      (update_metric (stats path slot) field (saturate (stats path slot field) value)))

-- `ngx_http_cache_purge_stat_wait` with a positive or another `delta`.
unfoldable pub stat_wait : Option ℕ → Option ℕ → Bool → (ℕ → ℕ → Metric → ℕ) → ℕ → ℕ → Metric → ℕ
stat_wait none path up stats = stats
stat_wait (some slot) none up stats = stats
stat_wait (some slot) (some path) up stats =
    let old = stats path slot waiting in
    update stats path (
      update (stats path) slot
        (update_metric (stats path slot) waiting (if up then suc old % u64 else old - 1)))

-- `ngx_str_rbtree_lookup` in the tree of a path.
unfoldable pub find : ℕ → List ℕ → List Entry → Option ℕ
find path key [] = none
find path key (e ∷ index) =
    if e.path == path && bytes_eq e.key key then some e.addr else find path key index

-- `ngx_rbtree_delete` of the node at an address.
unfoldable pub remove_entry : ℕ → List Entry → List Entry
remove_entry addr [] = []
remove_entry addr (e ∷ index) = if e.addr == addr then index else e ∷ remove_entry addr index

-- A write through a pointer to the task at an address, in whichever list it is.
unfoldable pub modify : ℕ → (Task → Task) → List Task → List Task
modify addr f [] = []
modify addr f (t ∷ ts) = if t.addr == addr then f t ∷ ts else t ∷ modify addr f ts

-- The task at an address, and a list without it (`ngx_queue_remove`).
unfoldable pub at_addr : ℕ → List Task → Option Task
at_addr addr [] = none
at_addr addr (t ∷ ts) = if t.addr == addr then some t else at_addr addr ts

unfoldable pub unlink : ℕ → List Task → List Task
unlink addr [] = []
unlink addr (t ∷ ts) = if t.addr == addr then ts else t ∷ unlink addr ts

-- `ngx_queue_insert_tail`.
unfoldable pub insert_tail : Task → List Task → List Task
insert_tail t [] = t ∷ []
insert_tail t (u ∷ ts) = u ∷ insert_tail t ts

-- `queue->oldest` is set when a task comes to an empty list.
abbrev pub oldest_after : ℕ → List Task → ℕ → ℕ
oldest_after now [] oldest = now
oldest_after now (t ∷ ts) oldest = oldest
