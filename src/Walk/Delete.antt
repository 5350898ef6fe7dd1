-- ===== src/Walk/Delete.antt =====
-- `ngx_http_cache_purge_unlink` and `ngx_http_cache_purge_delete_file`: what the walk does with one
-- file.
use ngx_cache_purge.Prelude.{
  ℕ, ◌+◌, ◌-◌, ◌%◌, Bool, true, ◌&&◌, ◌||◌, not, List, Option, none, some, ltb, leb, ◌==◌,
  if◌then◌else◌, length, take, u64, bytes_eq,
}
use ngx_cache_purge.Ngx.{Text, Rc, is_ok, ok, error, declined}
use ngx_cache_purge.FilePath.{char_at}
use ngx_cache_purge.Generation.State.{Generation, stale, is_some}
use ngx_cache_purge.Queue.Enqueue.{key_max_len}
use ngx_cache_purge.Queue.State.{saturate}
use ngx_cache_purge.Walk.Native.{Native, missing, other, Disk}
use ngx_cache_purge.Walk.Protect.{Scope, is_protected_path, is_cache_file}
use ngx_cache_purge.Walk.Key.{Entry, KeyRead, got, read_key}
use ngx_cache_purge.Walk.Tree.{Shared, invalidate_node}

-- The namespace of a walk: its name and its shared state.
pub record Judge : Type 0 where
  pub name : List ℕ
  pub state : Generation

-- `ngx_http_cache_purge_walk_ctx_t`: the selector (with its length), the scope, the namespace, the
-- native cache of an exact walk, and the counters.
pub record Context : Type 0 where
  pub key_partial : List ℕ
  pub scope : Scope
  pub namespace : Option Judge
  pub cache : Option Shared
  pub files_deleted : ℕ
  pub delete_errors : ℕ
  pub scan_errors : ℕ
  pub bytes_deleted : ℕ

-- The bytes that have to be there: the selector, and a newline behind an exact key.
abbrev pub wanted : Context → ℕ
wanted ctx = if is_some ctx.cache then length ctx.key_partial + 1 else length ctx.key_partial

-- A counter stops at the highest value.
abbrev pub raise : ℕ → ℕ
raise n = if n == u64 - 1 then n else n + 1

module _ {D : Type 0} (disk : Disk D) where
  unfoldable pub unlink : List ℕ → D → Rc × D
  unlink path d =
      let (failure, d') = disk.delete_entry path d in
      elim failure [ none ↦ (ok, d') | some missing ↦ (declined, d') | some other ↦ (error, d') ]

  -- The counters after the removal.
  unfoldable pub count_removal : Rc → ℕ → Context → Context
  count_removal ok file_size ctx = record ctx {
    files_deleted = raise ctx.files_deleted;
    bytes_deleted =
        if ltb 0 file_size then saturate ctx.bytes_deleted file_size else ctx.bytes_deleted;
  }
  count_removal error file_size ctx = record ctx { delete_errors = raise ctx.delete_errors }
  count_removal rc file_size ctx = ctx

  unfoldable pub remove_file : List ℕ → ℕ → Context → D → Context × D
  remove_file path file_size ctx d =
      let (rc, d') = unlink path d in (count_removal rc file_size ctx, d')

module _ (text : Text) (caseless : Bool) where
  -- Without a namespace every entry may go; with one, the entries that are stale in it.
  unfoldable pub may_go : Option Judge → Entry → Bool
  may_go none e = true
  may_go (some ns) e = is_ok (stale text ns.name ns.state (take e.entry_key_len e.key_buffer))

  unfoldable pub is_out_of_scope : List ℕ → Context → Bool
  is_out_of_scope path ctx =
      is_protected_path text caseless ctx.scope (some path)
      || not (is_cache_file path)
      || leb key_max_len (length ctx.key_partial)
      || is_some ctx.cache && length ctx.key_partial == 0

module _ {D : Type 0} (text : Text) (caseless : Bool) (native : Native) (disk : Disk D) where
  -- The exact key ends at a newline; a selector is compared without case.
  unfoldable pub key_matches : Context → Entry → Bool
  key_matches ctx e =
      let len = length ctx.key_partial in
      if is_some ctx.cache
      then char_at e.key_buffer len == 10 && bytes_eq (take len e.key_buffer) ctx.key_partial
      else len == 0 || native.same_caseless e.key_buffer ctx.key_partial len

  abbrev pub forget : List ℕ → Context → Context
  forget path ctx = record ctx {
    cache = elim ctx.cache [ none ↦ none | some sh ↦ some (invalidate_node text native path sh) ];
  }

  unfoldable pub judge_entry : List ℕ → Entry → Context → D → Context × D
  judge_entry path e ctx d =
      if not (may_go text caseless ctx.namespace e)
      then (ctx, d)
      else if not (key_matches ctx e)
      then (ctx, d)
      else remove_file disk path e.file_size (forget path ctx) d

  unfoldable pub delete_file : List ℕ → Context → D → Context × D
  delete_file path ctx d =
      if is_out_of_scope text caseless path ctx
      then (ctx, d)
      else elim (read_key native path (wanted ctx) (disk.open_entry path d)) [
        | KeyRead.error ↦ (record ctx { scan_errors = (ctx.scan_errors + 1) % u64 }, d)
        | KeyRead.declined ↦ (ctx, d)
        | got e ↦ if e.count == wanted ctx then judge_entry path e ctx d else (ctx, d)
      ]
