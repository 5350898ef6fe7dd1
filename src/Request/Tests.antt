-- ===== src/Request/Tests.antt =====
-- The theorems on requests at concrete requests.
use ngx_cache_purge.Prelude.{
  ℕ, ◌+◌, ◌*◌, ◌/◌, ◌%◌, ◌^◌, ◌≡◌, ◌↔◌, refl, Bool, true, false, List, [], ◌∷◌, none, some, length,
  take, codes, bytes_eq, arith,
}
use ngx_cache_purge.Ngx.{ok}
use ngx_cache_purge.Generation.Key.{encode}
use ngx_cache_purge.Generation.Rule.{null}
use ngx_cache_purge.Generation.State.{Generation}
use ngx_cache_purge.Generation.Snapshot.{
  RequestKeys, KeyCall, find_snapshot, request_keys, take_snapshot, key_of_value, generation_key,
}
use ngx_cache_purge.FilePath.{char_at, path_length, path_equal, trim_length}
use ngx_cache_purge.Queue.Task.{waiting}
use ngx_cache_purge.Queue.State.{find}
use ngx_cache_purge.Queue.Paths.{find_path}
use ngx_cache_purge.Queue.Enqueue.{
  Request, enqueue, enqueue_at, admit, invalidate_namespace, key_too_long, lookup_key,
}
use ngx_cache_purge.Queue.Samples.{plain, two_nodes, cache, empty_queue, request, no_namespace}
use ngx_cache_purge.Walk.Native.{Disk, Opened, Failure}
use ngx_cache_purge.Walk.Tree.{Shared, sentinel, branch}
use ngx_cache_purge.Walk.Delete.{Context}
use ngx_cache_purge.Walk.Accounts.{has_file}
use ngx_cache_purge.Reply.Catalog.{invalid_selector}
use ngx_cache_purge.Request.Access.{Cidr, Sockaddr, access, scan, in_cidr, is_v4_mapped, v4_value}
use ngx_cache_purge.Request.Clients.{LetIn, access-LetIn}
use ngx_cache_purge.Request.Entry.{
  Conf, Entrance, handler, access_handler, is_method, is_denied, MayPurge, access_handler_guards,
}
use ngx_cache_purge.Request.Init.{InitCall, discarded, ready, init, match_key}
use ngx_cache_purge.Request.Dispatch.{Mode, answered, is_too_long, success, after_enqueue, dispatch}
use ngx_cache_purge.Request.Guard.{dispatch_selector}
use ngx_cache_purge.Request.Accept.{dispatch_queued}
use ngx_cache_purge.Request.Wait.{Waiting, Reading, defer, live}
use ngx_cache_purge.Request.Balance.{live-defer}
use ngx_cache_purge.Request.Purge.{open_found, file_cache_purge}
use ngx_cache_purge.Request.Report.{file_cache_purge-gone}

abbrev exact : List ℕ → List ℕ → ℕ → Bool
exact a b n = bytes_eq (take n a) (take n b)

-- The address 10.0.0.1 is 10 in the lowest byte here, and the list lets all of 10.0.0.0/8 in.
abbrev swap : ℕ → ℕ
swap n = n / 2 ^ 24 + n % 2 ^ 24 / 2 ^ 16 * 2 ^ 8 + n % 2 ^ 16 / 2 ^ 8 * 2 ^ 16 + n % 2 ^ 8 * 2 ^ 24

abbrev ten : List Cidr
ten = record { addr = 10; mask = 255 } ∷ []

abbrev mapped : Sockaddr
mapped = Sockaddr.inet6 (0 ∷ 0 ∷ 0 ∷ 0 ∷ 0 ∷ 0 ∷ 0 ∷ 0 ∷ 0 ∷ 0 ∷ 255 ∷ 255 ∷ 10 ∷ 0 ∷ 0 ∷ 1 ∷ [])

access-LetIn_example : (access swap (some ten) none mapped ≡ ok) ↔ LetIn swap (some ten) none mapped
access-LetIn_example = access-LetIn swap (some ten) none mapped

mapped_allowed : access swap (some ten) none mapped ≡ ok
unfolding access scan in_cidr is_v4_mapped v4_value char_at
mapped_allowed = refl

abbrev conf : Conf
conf = record { method = codes "PURGE"; purge_all = false; access = some ten; access6 = none }

abbrev entrance : Entrance
entrance = record { conf = some conf; has_original = true; has_handler = true }

enters : access_handler exact swap entrance (codes "PURGE") mapped ≡ handler
unfolding access_handler is_method is_denied access scan in_cidr is_v4_mapped v4_value char_at
    bytes_eq
enters = refl

access_handler_guards_example :
    (conf : Conf) × (entrance.conf ≡ some conf)
    × (length (codes "PURGE") ≡ length conf.method)
    × (exact (codes "PURGE") conf.method (length (codes "PURGE")) ≡ true)
    × MayPurge swap conf mapped
access_handler_guards_example =
    access_handler_guards exact swap entrance (codes "PURGE") mapped enters

abbrev state : Generation
state = record {
  version = 1;
  serial = 1;
  baseline = 1;
  epoch = codes "1700000000";
  state_path = [];
  exact = null;
  prefix = null;
  allocated = [];
  tail = none;
  garbage = [];
}

abbrev space : KeyCall
space = record {
  ns = 7;
  name = codes "shop";
  state = state;
  value = some (codes "/a");
  cleanup_room = true;
  snapshot_room = true;
  encoded_room = true;
}

abbrev seen : RequestKeys
seen = record { evaluating = false; snapshots = take_snapshot plain space (codes "/a") ∷ [] }

abbrev start : InitCall
start = record {
  body = discarded;
  cache_room = true;
  keys_room = true;
  key_room = true;
  namespace = some space;
  native_key = some (take_snapshot plain space (codes "/a")).encoded;
}

start_ready : init plain start none ≡ (ready (codes "/a"), some seen)
unfolding init match_key generation_key request_keys key_of_value find_snapshot take_snapshot encode
    bytes_eq
start_ready = refl

abbrev mode : Mode
mode = record { refresh = false; vary_aware = false; background = true }

abbrev prefix_request : Request
prefix_request = record request { key = codes "/a*" }

dispatch_selector_example :
    ((dispatch plain false two_nodes two_nodes mode prefix_request no_namespace empty_queue).0
      ≡ answered invalid_selector)
    ↔ (is_too_long mode no_namespace prefix_request ≡ true)
dispatch_selector_example =
    dispatch_selector plain false two_nodes two_nodes mode prefix_request no_namespace empty_queue
      refl

queued :
    (dispatch plain false two_nodes two_nodes mode prefix_request no_namespace empty_queue).0
    ≡ answered (success no_namespace)
unfolding dispatch is_too_long enqueue key_too_long find_path path_length trim_length char_at
    path_equal enqueue_at find lookup_key admit invalidate_namespace after_enqueue bytes_eq
queued = refl

dispatch_queued_example :
    (path : ℕ) × (addr : ℕ) × (find_path plain false cache empty_queue.paths ≡ some path)
    × (find path
          (lookup_key no_namespace prefix_request)
          (dispatch plain false two_nodes two_nodes mode prefix_request no_namespace
            empty_queue).1.index
        ≡ some addr)
dispatch_queued_example =
    dispatch_queued plain false two_nodes two_nodes mode prefix_request no_namespace empty_queue
      queued

abbrev reading : Reading
reading = record { discard_body = false; ready = false; handled = true }

abbrev parked : Waiting
parked = record { path = some 7; armed = true; timer_set = true }

parked_lem : (defer plain false true reading (some 0) cache empty_queue).waiting ≡ some parked
unfolding defer find_path path_length trim_length char_at path_equal
parked_lem = refl

-- One run finds the lock taken, and the next one the queue free.
live-defer_example :
    (live plain false two_nodes two_nodes
        (record request { slot = some 0; locked = false } ∷ record request { slot = some 0 } ∷ [])
        (some 0)
        parked
        no_namespace
        (defer plain false true reading (some 0) cache empty_queue).queue).stats
      7 0 waiting
    ≡ 0
live-defer_example =
    live-defer plain false two_nodes two_nodes true reading (some 0) cache empty_queue parked
      (record request { slot = some 0; locked = false } ∷ record request { slot = some 0 } ∷ [])
      no_namespace parked_lem (refl, (refl, tt)) (λ i j. omega arith) 7 0

abbrev scanned : Context
scanned = record {
  key_partial = [];
  scope = record { cache_root = some cache; protection = none; paths = none };
  namespace = none;
  cache = none;
  files_deleted = 3;
  delete_errors = 0;
  scan_errors = 1;
  bytes_deleted = 0;
}

abbrev shared : Shared
shared = record {
  rbtree = branch (record { key = 5; rest = []; exists = true; fs_size = 10 }) sentinel sentinel;
  size = 10;
}

abbrev broken : Disk Bool
broken = record {
  open_entry = λ _ _. Opened.failed Failure.missing;
  delete_entry = λ _ there. (some Failure.other, there);
}

file_cache_purge-gone_example :
    has_file 5 [] (file_cache_purge broken open_found cache 5 [] shared true).shared.rbtree ≡ false
file_cache_purge-gone_example = file_cache_purge-gone broken cache 5 [] shared true
