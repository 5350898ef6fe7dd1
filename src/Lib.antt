-- ===== src/Lib.antt =====
-- ngx_cache_purge: removal of cached responses from nginx's proxy caches.
--
-- The module answers purge requests. With a namespace, a purge raises generations: a key of the
-- cache carries the generation that was current when it was made, and an invalidation makes older
-- generations stale at once. The files are removed in the background: a request puts a task in a
-- queue in shared memory, a worker claims it, walks the directory of the cache in slices, and
-- completes it. Without the background queue a request removes one entry or walks at once. A refresh
-- collects a batch of entries, asks the upstream about each, and puts those out of date in the queue.
--
-- Parts and files:
--   Ngx         the functions of nginx that the code calls, as records that definitions take as
--               parameters: characters and number formats, the slab allocator, return codes.
--   FilePath    comparison of directory names (ngx_cache_purge.h, ngx_cache_purge_posix.h).
--   Generation  ngx_cache_purge_invalidation.c. Rule has the byte tries (`search_rules` is the loop
--               of `generation_lookup`, `place` that of `generation_invalidate`), Key the encoded
--               keys, State the shared state of a namespace with `lookup`, `reset`, `invalidate`,
--               `stale`, `current` and `view`, Snapshot the keys that one request keeps
--               (`generation_key`), Init the start and reload of a namespace (`generation_init`).
--   Queue       ngx_cache_purge_queue.c. State has the shared queue; Paths `path_get` and `log`;
--               Enqueue admission; Recover the return of tasks of dead workers; Process the claim,
--               the slices and the completion of a task; Lifecycle start and exit of a worker;
--               Background a run of its timer; Status the snapshot; Probe the credits of a refresh;
--               Attach the start and reload of the zone (`init_shm_zone`, `protection_get`).
--               Counts, Index, Claimed, Owners and Replay have the proofs about them, and System all the
--               processes on one queue as a relation of steps.
--   Walk        ngx_cache_purge_walk.c. Protect has the scope of a walk, Key the bounded reader of
--               the key of a cache file, Tree the node of the native cache, Delete the removal of
--               a file, Step a round of `walk_step` and Slice its loop; Safety, Accounts, Slice and
--               Handles have the proofs.
--   Reply       ngx_cache_purge_response.c. Catalog has the table of results, Headers the headers of
--               a result, Escape the key in JSON, HTML, text and CDATA, Body `send_result`; Cdata,
--               Bounds and Disclosure have the proofs.
--   Request     ngx_cache_purge_handler.c, and `delete_variants` and `walk` of ngx_cache_purge_walk.c.
--               Access has the lists of addresses, Entry the access handler and the handlers of the
--               four protocols, Init `init`, Dispatch `dispatch`, Wait the deferral of a request
--               that finds the queue busy, Purge the purges without a queue; Clients, Guard, Accept,
--               Gauge, Balance and Report have the proofs.
--   Refresh     ngx_cache_purge_refresh.c. Batch has `canonical` and `collect`, Cursor the loop over
--               the headers in `start`, Job `credit`, `probe` and `done`, Step `scan`, `step` and
--               `cleanup`, Profile `guard`, Report the body of the reply; Smallest, Complete,
--               Paired, Harmless and Credit have the proofs.
--   Config      ngx_cache_purge_module.c, and the directives of ngx_cache_purge_refresh.c. Purge has
--               `ngx_http_cache_purge_conf`, the words after a directive of a protocol; Separate the
--               directives of the four protocols; Directives the others; Settings the settings of a
--               location; Merge `merge_loc_conf`; Zone `init_main_conf` with the size of the zone of
--               the queue; Known `postconfiguration`; Namespaces `namespace_create` of
--               ngx_cache_purge_invalidation.c; Variables the variables of a request. Lists,
--               Networks, Merged, Gates, Nested, Sizing, Reload, Once, Bound and Apart have the
--               proofs.
-- The configuration gives `Request.Entry` the settings of a location, and `Queue.Attach` the names
-- that are bound when the zone is there. The queue calls `Generation.State.invalidate` under its own lock, and takes the walk as the
-- interface `Queue.Process.Walker`; the walk asks `Generation.State.stale` before a removal. A
-- request and a decision of a refresh call `Queue.Enqueue.enqueue`; a refresh takes its credits from
-- `Queue.Probe.probe_credit`.
--
-- State is passed explicitly. A lock is held for one definition; whether a `trylock` succeeds is an
-- argument, and so is whether memory is there. A pointer is the address of what it points at. The
-- trees of tasks of all paths are one list of nodes with their paths, as nginx's red-black tree is
-- only searched, extended and reduced; the parts of a list of headers are one list.
-- Numbers are natural numbers with the wrap-around of 64 bits written out; pointers have 8 bytes.
--
-- Loops are structural. `Queue.Recover.recover_loop` and `Queue.Process.rotate` have as many rounds
-- as the code's counters allow. `Queue.Background.batch_loop` and `Walk.Slice.walk_loop` run on fuel;
-- the size of a batch, and one round more than the limit of a slice, are enough. A batch of a refresh
-- has 32 entries, as in the code; the slice that ends a scan brings the sorted entries as an argument.
--
-- The directives are those with nginx 1.7.9 or later; a directive gives its settings, or nothing for an
-- error. Compiling an expression, reading a network and the zones of nginx are parameters.
--
-- Not modelled: the table of commands (ngx_cache_purge_module.c), the layouts of nginx's upstream
-- modules (ngx_cache_purge_upstream.h), Windows (ngx_cache_purge_win32.h), the thread pools
-- (`NGX_THREADS`), the JSON of the status handler, the 32-bit protocol of the counters, log messages.
-- These are calls of nginx or of the operating system, or printing.
mod Prelude
pub mod Ngx
pub mod FilePath
pub mod Generation
pub mod Queue
pub mod Walk
pub mod Reply
pub mod Request
pub mod Refresh
pub mod Config
