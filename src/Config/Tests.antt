-- ===== src/Config/Tests.antt =====
-- The theorems on the configuration at concrete directives, locations and zones.
use ngx_cache_purge.Prelude.{
  ℕ, ◌+◌, ◌*◌, ◌%◌, ◌≤◌, ◌<◌, ◌≡◌, refl, Bool, true, false, List, [], ◌∷◌, Option, none, some,
  if◌then◌else◌, codes, bytes_eq, take, u64, arith, ◌≢◌,
}
use ngx_cache_purge.Ngx.{ok, declined}
use ngx_cache_purge.Generation.Rule.{null}
use ngx_cache_purge.Generation.Key.{encode}
use ngx_cache_purge.Generation.State.{Generation, stale, current}
use ngx_cache_purge.FilePath.{path_length, path_equal}
use ngx_cache_purge.Queue.Samples.{plain, two_nodes, empty_queue}
use ngx_cache_purge.Queue.State.{Queue}
use ngx_cache_purge.Queue.Paths.{Registered, bind_caches, bind_locations, find_path, path_get}
use ngx_cache_purge.Request.Access.{inet}
use ngx_cache_purge.Request.Entry.{is_denied}
use ngx_cache_purge.Config.Purge.{
  PurgeConf, fresh_purge_conf, on, off, Network, v4, arg, add_network, add_networks, read_from,
  purge_conf,
}
use ngx_cache_purge.Config.Lists.{IsPlain}
use ngx_cache_purge.Config.Networks.{InSome, addresses, HasAddresses, purge_conf-is_denied}
use ngx_cache_purge.Config.Settings.{
  proxy, same_protocol, other, queue_status, refresh, LocConf, fresh_loc_conf, Core, Merged,
}
use ngx_cache_purge.Config.Merge.{
  merge_conf, merge_refresh, gate, merge_gates, merge_location, merge_loc_conf,
}
use ngx_cache_purge.Config.Gates.{Gated, first_of, merge_loc_conf-Gated}
use ngx_cache_purge.Config.Nested.{LeavesGate, nest, nest-LeavesGate}
use ngx_cache_purge.Config.Zone.{
  MainValues, OldZone, Sizes, fresh_main_conf, init_values, find_zone, stride, add_metadata,
  zone_size, init_main_conf,
}
use ngx_cache_purge.Config.Sizing.{IsMachine, all_bytes, zone_size-fits}
use ngx_cache_purge.Config.Reload.{IsLimited, KeepsSize, init_main_conf-Keeps}
use ngx_cache_purge.Config.Known.{Phases, keeps_namespaces, is_known, are_known, postconfiguration}
use ngx_cache_purge.Config.Bound.{BoundTo, postconfiguration_bound}
use ngx_cache_purge.Config.Namespaces.{
  Created, zone_name_of, is_name_char, is_namespace_name, resizes, create_zone, namespace_create,
}
use ngx_cache_purge.Config.Apart.{namespace_create-apart}

-- One network, 10.0.0.0/8, with the lowest byte first.
abbrev read_cidr : List ℕ → Option Network
read_cidr s =
    if bytes_eq s (codes "10.0.0.0/8") then some (v4 (record { addr = 10; mask = 255 })) else none

abbrev exact : List ℕ → List ℕ → ℕ → Bool
exact a b n = bytes_eq (take n a) (take n b)

abbrev words : List (List ℕ)
words = codes "proxy_cache_purge" ∷ codes "PURGE" ∷ codes "from" ∷ codes "10.0.0.0/8" ∷ []

abbrev ten_purge : PurgeConf
ten_purge = record {
  enable = on;
  conf = record {
    method = codes "PURGE";
    purge_all = false;
    access = some (record { addr = 10; mask = 255 } ∷ []);
    access6 = none;
  };
}

accepted : purge_conf read_cidr (λ _. true) words fresh_purge_conf ≡ some ten_purge
unfolding purge_conf read_from add_networks add_network arg bytes_eq
accepted = refl

has_addresses : HasAddresses words
unfolding arg bytes_eq
has_addresses = (refl, omega arith, refl)

purge_conf-is_denied_example :
    (is_denied exact (λ n. n) ten_purge.conf (inet 266) ≡ false
      → InSome (λ n. n) read_cidr (λ _. true) (addresses words) (inet 266))
    × (IsPlain (inet 266) × InSome (λ n. n) read_cidr (λ _. true) (addresses words) (inet 266)
        → is_denied exact (λ n. n) ten_purge.conf (inet 266) ≡ false)
purge_conf-is_denied_example =
    purge_conf-is_denied (λ n. n) read_cidr (λ _. true) exact words fresh_purge_conf ten_purge
      (inet 266) refl refl has_addresses accepted

abbrev no_purge : PurgeConf
no_purge = record fresh_purge_conf { enable = off }

abbrev parent : LocConf
parent = record fresh_loc_conf {
  settings = λ p. if same_protocol proxy p then ten_purge else no_purge;
  original_handler = some (other 1);
  namespace = some 5;
  logical_key = some 6;
}

-- An `if` block that says nothing.
abbrev child : LocConf
child = fresh_loc_conf

abbrev anonymous : Core
anonymous = record { handler = none; noname = true }

-- What the merge leaves.
abbrev or_nothing : Option Merged → Merged
or_nothing none = record { conf = child; core_handler = none; shows_status = false }
or_nothing (some m) = m

abbrev merged : Merged
unfolding merge_loc_conf merge_refresh merge_location merge_gates merge_conf gate
merged = or_nothing (merge_loc_conf true true true anonymous parent child)

merges : merge_loc_conf true true true anonymous parent child ≡ some merged
unfolding merge_loc_conf merge_refresh merge_location merge_gates merge_conf gate
merges = refl

inherits : Gated anonymous parent child merged (some proxy)
unfolding merge_loc_conf merge_refresh merge_location merge_gates merge_conf gate
inherits = (refl, refl, refl, refl)

not_status : merged.core_handler ≢ some queue_status
unfolding merge_loc_conf merge_refresh merge_location merge_gates merge_conf gate
not_status h = cc

not_refresh : merged.core_handler ≢ some refresh
unfolding merge_loc_conf merge_refresh merge_location merge_gates merge_conf gate
not_refresh h = cc

merge_loc_conf-Gated_example : Gated anonymous parent child merged (first_of parent child)
merge_loc_conf-Gated_example =
    merge_loc_conf-Gated true true true anonymous parent child merged merges not_status not_refresh

nests : nest true true true ((anonymous, child) ∷ []) parent ≡ some merged.conf
unfolding nest merge_loc_conf merge_refresh merge_location merge_gates merge_conf gate
nests = refl

nest-LeavesGate_example : LeavesGate merged.conf
nest-LeavesGate_example =
    nest-LeavesGate true true true ((anonymous, child) ∷ []) parent merged.conf nests
      ((refl, refl), tt) refl

abbrev sizes : Sizes
sizes = record {
  sizeof_queue = 1000;
  sizeof_item = 200;
  sizeof_stats = 100;
  sizeof_path = 200;
  pagesize = 4096;
  cacheline_size = 64;
  max_processes = 1024;
}

abbrev caches : List Registered
caches = record { name = codes "/c"; has_manager = true; has_loader = true } ∷ []

abbrev size : ℕ
size = 2777088

sized : zone_size sizes 1024 caches ≡ some size
unfolding zone_size add_metadata
sized = refl

caches-IsMachine : IsMachine sizes caches
caches-IsMachine = record {
  page_pos = omega arith;
  queue_lt = omega arith;
  pages_lt = omega arith;
  bytes_lt = (omega arith, tt);
}

zone_size-fits_example :
    (1000 + 1024 * stride sizes + all_bytes sizes caches ≤ size) × (size % 4096 ≡ 0) × (size < u64)
zone_size-fits_example = zone_size-fits sizes 1024 size caches caches-IsMachine sized

abbrev old_zone : OldZone
old_zone = record { addr = 3; is_own = true; name = codes "cache_purge_queue"; size = size }

abbrev values : MainValues
values = record {
  background_purge = false;
  queue_size = 1024;
  batch_size = 10;
  throttle_ms = 10;
  vary_aware = false;
}

reloaded :
    init_main_conf sizes true false false (old_zone ∷ []) caches fresh_main_conf
    ≡ some (values, some size)
unfolding init_main_conf init_values find_zone zone_size add_metadata bytes_eq
reloaded = refl

init_main_conf-Keeps_example : IsLimited values × KeepsSize (old_zone ∷ []) (some size)
init_main_conf-Keeps_example =
    init_main_conf-Keeps sizes true false false (old_zone ∷ []) caches fresh_main_conf values
      (some size) reloaded

abbrev hooks : Phases
hooks = record { has_log = true; has_guard = true }

known : postconfiguration plain false (true, true) true [] [] (codes "/c" ∷ []) caches ≡ some hooks
unfolding postconfiguration keeps_namespaces are_known is_known path_equal path_length
known = refl

abbrev registered : Queue (ℕ → Bool)
registered = record empty_queue { paths = empty_queue.paths }

registers : bind_caches plain false two_nodes 100 caches empty_queue ≡ (ok, registered)
unfolding bind_caches path_get find_path path_length path_equal
registers = refl

postconfiguration_bound_example :
    (addrs : List ℕ) × (bind_locations plain false two_nodes 100 (codes "/c" ∷ []) registered
      ≡ (some addrs, registered))
    × BoundTo plain false (codes "/c" ∷ []) addrs registered.paths
unfolding path_length
postconfiguration_bound_example =
    postconfiguration_bound plain false two_nodes 100 (true, true) true [] [] (codes "/c" ∷ [])
      caches hooks empty_queue registered known (refl, tt) registers

abbrev no_state : Generation
no_state = record {
  version = 1;
  serial = 4;
  baseline = 1;
  epoch = codes "0000000042";
  state_path = codes "/state";
  exact = null;
  prefix = null;
  allocated = [];
  tail = none;
  garbage = [];
}

abbrev created : List ℕ → Created
created name = record { name = name; state_path = codes "/state"; zone_name = zone_name_of name }

shops_apart : codes "shop" ≢ codes "shop-2"
shops_apart h = cc

-- The second name begins with the first.
namespace_create-apart_example :
    (stale plain
        (codes "shop-2")
        no_state
        (encode plain (codes "shop") no_state.epoch 3 (codes "/a"))
      ≡ declined)
    × (current plain
          (codes "shop-2")
          no_state
          (encode plain (codes "shop") no_state.epoch 3 (codes "/a"))
        ≡ declined)
unfolding namespace_create create_zone is_namespace_name is_name_char resizes
namespace_create-apart_example =
    namespace_create-apart plain 4096 (λ p. some p) (λ _. true) (λ _ _. some false) [] (true, true)
      (true, true) (codes "shop") (codes "shop-2") 65536 65536 (codes "/state") (codes "/state")
      (created (codes "shop")) (created (codes "shop-2")) no_state no_state.epoch 3 (codes "/a")
      refl refl shops_apart
