-- ===== src/Queue/Attach/Tests.antt =====
-- A reload with one task pending: the cache and a directory for temporary files.
use ngx_cache_purge.Prelude.{
  ℕ, ◌≡◌, refl, Bool, true, false, List, [], ◌∷◌, none, some, codes, arith,
}
use ngx_cache_purge.Ngx.{ok}
use ngx_cache_purge.FilePath.{path_length, trim_length, path_equal}
use ngx_cache_purge.Queue.Paths.{Registered, bind_caches, bind_locations, path_get, find_path}
use ngx_cache_purge.Queue.Attach.{
  OldConf, ShmZone, init_shm_zone, check_zone, bind_zone, bind_queue_status, protection_get,
  protection_size, plain_names, find_protection, copy_names,
}
use ngx_cache_purge.Queue.Attach.Sound.{Carries, init_shm_zone-Carries}
use ngx_cache_purge.Queue.Samples.{
  plain, two_nodes, two_nodes_laws, cache, pending_queue, task, pending-IsCounted,
  pending-IsIndexed,
}

abbrev directories : List Registered
directories =
    record { name = cache; has_manager = true; has_loader = true }
    ∷ record { name = codes "/tmp/"; has_manager = false; has_loader = false }
    ∷ []

abbrev before : OldConf (ℕ → Bool)
before = record {
  queue_size = 1;
  queue = some (record { queue = pending_queue; protections = [] });
}

abbrev zone : ShmZone (ℕ → Bool)
zone = record { exists = true; head = none; pool = λ _. false }

init_shm_zone-Carries_example :
    Carries plain false two_nodes 100 16 24 two_nodes_laws 1 (task ∷ []) (
      init_shm_zone plain false two_nodes 100 16 24 4096 1 directories
        (cache ∷ [])
        (some before)
        zone)
init_shm_zone-Carries_example =
    init_shm_zone-Carries plain false two_nodes 100 16 24 two_nodes_laws 4096 1 directories
      (cache ∷ []) (some before) zone ((pending-IsCounted, pending-IsIndexed), omega arith)

-- The reload succeeds.
reload_ok :
    (init_shm_zone plain false two_nodes 100 16 24 4096 1 directories
      (cache ∷ [])
      (some before)
      zone).rc
    ≡ ok
unfolding init_shm_zone check_zone bind_zone bind_queue_status bind_caches bind_locations path_get
    find_path path_length trim_length path_equal protection_get protection_size plain_names
    find_protection copy_names
reload_ok = refl
