-- ===== src/Request/Purge.antt =====
-- The purges that are done at once: `ngx_http_file_cache_purge`, `ngx_http_cache_purge_handler`,
-- `_all`, `_partial` and their reply, with `ngx_http_cache_purge_walk` and `_delete_variants` of the
-- walk.
use ngx_cache_purge.Prelude.{
  ℕ, suc, ◌-◌, Bool, true, false, ◌&&◌, ◌||◌, not, List, [], Option, none, some, ◌==◌,
  if◌then◌else◌, length, u64,
}
use ngx_cache_purge.Ngx.{Text, Rc, ok, error, busy, declined, again, is_ok}
use ngx_cache_purge.Generation.State.{drop_last}
use ngx_cache_purge.Walk.Native.{Disk}
use ngx_cache_purge.Walk.Protect.{Configured}
use ngx_cache_purge.Walk.Tree.{Shared, descend}
use ngx_cache_purge.Walk.Delete.{Context, unlink}
use ngx_cache_purge.Walk.Accounts.{has_file}
use ngx_cache_purge.Walk.Step.{Dirs, Cursor, Walked}
use ngx_cache_purge.Walk.Slice.{walk_step, is_abort}
use ngx_cache_purge.Reply.Catalog.{
  ResultCode, number, purged, no_match, delete_failed, scan_failed, internal_error,
}
use ngx_cache_purge.Reply.Body.{Result}

-- `ngx_http_cache_purge_walk_init`.
unfoldable pub walk_init : List ℕ → Option (List (List ℕ)) → Option (List Configured) → Context
walk_init root protection paths = record {
  key_partial = [];
  scope = record { cache_root = some root; protection = protection; paths = paths };
  namespace = none;
  cache = none;
  files_deleted = 0;
  delete_errors = 0;
  scan_errors = 0;
  bytes_deleted = 0;
}

-- The end of a walk, without its cursor.
pub record Walk (D : Type 0) : Type 0 where
  pub rc : Rc
  pub ctx : Context
  pub disk : D

abbrev pub ended : {D : Type 0} → Walked D → Walk D
ended w = record { rc = w.rc; ctx = w.cursor.ctx; disk = w.disk }

-- The state of a bulk purge: its place, and the settings of the module.
pub record Place : Type 0 where
  pub cache_path : List ℕ
  pub protection : Option (List (List ℕ))
  pub paths : Option (List Configured)

-- The code of a walk that returned `rc`.
unfoldable pub walk_code : Rc → Context → ResultCode
walk_code rc ctx =
    if is_abort rc
    then internal_error
    else if not (ctx.delete_errors == 0)
    then delete_failed
    else if not (ctx.scan_errors == 0) || not (is_ok rc)
    then scan_failed
    else if not (ctx.files_deleted == 0)
    then purged
    else no_match

unfoldable pub walk_reply : Context → Rc → Result
unfolding number
walk_reply ctx rc = record {
  code = number (walk_code rc ctx);
  deleted = ctx.files_deleted;
  delete_errors = ctx.delete_errors;
  scan_errors = ctx.scan_errors;
  counted = true;
}

module _ {D : Type 0} (text : Text) (caseless : Bool) (dirs : Dirs D) (sizeof_frame : ℕ)
    (visit : List ℕ → ℕ → Context → D → Context × D) where
  -- A whole walk, without a limit; `none` is a walk with more rounds than `fuel`.
  unfoldable pub walk : ℕ → Context → D → Option (Walk D)
  walk fuel ctx d =
      let cursor : Cursor = record {
        ctx = ctx;
        frames = [];
        path = [];
        allocated = 0;
        started = false;
      } in
      elim (walk_step text caseless dirs sizeof_frame visit 0 fuel cursor d) [
        | none ↦ none
        | some w ↦ some (ended w)
      ]

  abbrev pub walked : Option (Walk D) → Option (Result × D)
  walked none = none
  walked (some w) = some (walk_reply w.ctx w.rc, w.disk)

  unfoldable pub purge_all : ℕ → Place → D → Option (Result × D)
  purge_all fuel place d =
      walked (walk fuel (walk_init place.cache_path place.protection place.paths) d)

  -- The selector without its star.
  unfoldable pub purge_partial : ℕ → Place → List ℕ → D → Option (Result × D)
  purge_partial fuel place key d =
      let ctx = walk_init place.cache_path place.protection place.paths in
      walked (walk fuel (record ctx { key_partial = drop_last key }) d)

  -- The variants of an exact key, in the native cache `sh`; the key of a request is not empty here
  -- if there is something to walk for.
  unfoldable pub delete_variants : ℕ → Place → List ℕ → Shared → D → Option (Walk D)
  delete_variants fuel place key sh d =
      let ctx = walk_init place.cache_path place.protection place.paths in
      let wanted = record ctx { key_partial = key; cache = some sh } in
      if length key == 0 then some (record { rc = ok; ctx = ctx; disk = d }) else walk fuel wanted d

-- `ngx_http_file_cache_open`, as its caller tells the results apart.
pub data CacheOpen : Type 0 where
  open_found open_declined open_again open_failed : CacheOpen

-- The native cache, the file system, and the code.
pub record FilePurge (D : Type 0) : Type 0 where
  pub rc : Rc
  pub shared : Shared
  pub disk : D

abbrev pub is_error : Rc → Bool
is_error error = true
is_error _ = false

module _ {D : Type 0} (disk : Disk D) where
  -- `c->node` is the node of the tree for the hash of the key: its number, and its other bytes.
  unfoldable pub file_cache_purge : CacheOpen → List ℕ → ℕ → List ℕ → Shared → D → FilePurge D
  file_cache_purge open_declined name key rest sh d = record {
    rc = declined;
    shared = sh;
    disk = d;
  }
  file_cache_purge open_again name key rest sh d = record { rc = again; shared = sh; disk = d }
  file_cache_purge open_failed name key rest sh d = record { rc = error; shared = sh; disk = d }
  file_cache_purge open_found name key rest sh d =
      let (rbtree, size) = descend key rest sh.rbtree sh.size in
      let (rc, d') = unlink disk name d in
      if not (has_file key rest sh.rbtree)
      then record { rc = declined; shared = sh; disk = d }
      else record {
        rc = if is_error rc then busy else rc;
        shared = record { rbtree = rbtree; size = size };
        disk = d';
      }

-- What the handler of an exact purge ends with: nothing yet (the file is opened by another
-- thread), or a result.
pub data Exact : Type 0 where
  waits : Exact
  finalized : Result → Exact

abbrev pub plain_result : ResultCode → Result
unfolding number
plain_result code = record {
  code = number code;
  deleted = 0;
  delete_errors = 0;
  scan_errors = 0;
  counted = false;
}

-- The primary file is counted with the variants.
abbrev pub count_primary : Rc → Context → Context
count_primary rc ctx =
    if is_ok rc && not (ctx.files_deleted == u64 - 1)
    then record ctx { files_deleted = suc ctx.files_deleted }
    else ctx

-- From the code of `ngx_http_file_cache_purge` on; `variants` is the end of the walk for the
-- variants, or of none.
unfoldable pub finish_exact : {D : Type 0} → Rc → Walk D → Exact
finish_exact ok w = finalized (walk_reply (count_primary ok w.ctx) w.rc)
finish_exact declined w = finalized (walk_reply (count_primary declined w.ctx) w.rc)
finish_exact again w = waits
finish_exact busy w = finalized (plain_result delete_failed)
finish_exact _ w = finalized (plain_result internal_error)

abbrev pub goes_on : Rc → Bool
goes_on ok = true
goes_on declined = true
goes_on _ = false

-- The native cache after the walk for the variants.
abbrev pub left : Shared → Option Shared → Shared
left sh none = sh
left sh (some sh') = sh'

module _ {D : Type 0} (text : Text) (caseless : Bool) (dirs : Dirs D) (sizeof_frame : ℕ)
    (visit : List ℕ → ℕ → Context → D → Context × D) (disk : Disk D) where
  -- `aio` tells that the request waits for a file; `hash` and `rest` find the node of the key.
  unfoldable pub purge_handler :
      Bool
      → Bool
      → CacheOpen
      → ℕ
      → Place
      → List ℕ
      → List ℕ
      → ℕ
      → List ℕ
      → Shared
      → D
      → Option (Exact × Shared × D)
  purge_handler aio vary_aware opened fuel place key name hash rest sh d =
      let f = file_cache_purge disk opened name hash rest sh d in
      let blank = walk_init place.cache_path place.protection place.paths in
      let no_walk : Walk D = record { rc = ok; ctx = blank; disk = f.disk } in
      let variants =
        delete_variants text caseless dirs sizeof_frame visit fuel place key f.shared f.disk in
      if aio
      then some (waits, sh, d)
      else if goes_on f.rc && vary_aware
      then elim variants [
        | none ↦ none
        | some w ↦ some (finish_exact f.rc w, left f.shared w.ctx.cache, w.disk)
      ]
      else some (finish_exact f.rc no_walk, f.shared, f.disk)
