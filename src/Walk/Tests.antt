-- ===== src/Walk/Tests.antt =====
-- The theorems about the walk at one cache file, with a header of two bytes.
use ngx_cache_purge.Prelude.{
  ℕ, ◌-◌, ◌≡◌, ◌≢◌, ◌↔◌, refl, Bool, true, false, List, [], ◌∷◌, ◌++◌, none, some, if◌then◌else◌,
  ap, take, drop, u64, arith, bytes_eq,
}
use ngx_cache_purge.Ngx.{Text}
use ngx_cache_purge.FilePath.{path_contains, path_equal, path_length, trim_length, char_at}
use ngx_cache_purge.Queue.Counts.{All}
use ngx_cache_purge.Walk.Native.{Native, Header, File, Disk, Opened, opened, Failure}
use ngx_cache_purge.Walk.Protect.{
  Scope, is_protected_path, protected_names, any_blocks, is_cache_file, is_hex, all_hex,
}
use ngx_cache_purge.Walk.Key.{
  Entry, got, read_key, read_opened, read_header, read_marker, read_buffer, header_fits, name_fits,
  named_by,
}
use ngx_cache_purge.Walk.Tree.{Tree, sentinel, branch}
use ngx_cache_purge.Walk.Delete.{
  Context, delete_file, judge_entry, remove_file, unlink, may_go, key_matches, wanted,
  is_out_of_scope,
}
use ngx_cache_purge.Ngx.{error, is_again}
use ngx_cache_purge.Generation.State.{is_some}
use ngx_cache_purge.FilePath.{path_contains, path_equal, path_length, trim_length, char_at}
use ngx_cache_purge.Walk.Step.{
  OpenedDir, NextEntry, Kind, FileInfo, Dirs, Cursor, Walked, walk_name, walk_open, walk_close,
  walk_round, walk_entry, walk_file, join,
}
use ngx_cache_purge.Walk.Slice.{walk_step, walk_start, walk_loop, walk_step_returns}
use ngx_cache_purge.Walk.Handles.{DirsLaws, handles, walk_step-Leaves}
use ngx_cache_purge.Walk.Safety.{
  IsBounded, IsKey, Blocks, IsStale, Matches, is_protected_path_iff, delete_file_due,
  read_key-IsKey,
}

abbrev plain : Text
plain = record { tolower = λ c. c; hextoi = λ _. none; print_hex = λ _. [] }

abbrev root : List ℕ
root = b'/' ∷ b'c' ∷ []

abbrev eight : List ℕ
eight = b'a' ∷ b'0' ∷ b'a' ∷ b'0' ∷ b'a' ∷ b'0' ∷ b'a' ∷ b'0' ∷ []

-- Thirty-two digits, and the file in the cache that they name.
abbrev digits : List ℕ
digits = eight ++ (eight ++ (eight ++ eight))

abbrev path : List ℕ
path = b'/' ∷ b'c' ∷ b'/' ∷ digits

abbrev header : Header
header = record {
  version = 5;
  header_start = 10;
  body_start = 10;
  crc32 = 7;
  etag_len = 0;
  vary_len = 0;
  variant = [];
}

-- Every key has one checksum and one hash.
abbrev native : Native
native = record {
  sizeof_header = 2;
  parse_header = λ _. header;
  version = 5;
  etag_len = 128;
  vary_len = 128;
  crc32_long = λ _. 7;
  md5 = λ _. digits;
  hex_dump = λ hash. hash;
  same_caseless = λ a b n. bytes_eq (take n a) (take n b);
  hash_key = λ _. 0;
}

-- The header, the marker, the key `k` and a newline.
abbrev bytes : List ℕ
bytes = 0 ∷ 0 ∷ 10 ∷ b'K' ∷ b'E' ∷ b'Y' ∷ b':' ∷ b' ' ∷ b'k' ∷ 10 ∷ b'x' ∷ []

abbrev file : File
file = record {
  info = some (some 11);
  read = λ n offset. some (take n (drop offset bytes));
  closes = true;
}

-- The state of the disk tells whether the file is there.
abbrev disk : Disk Bool
disk = record {
  open_entry = λ _ there. if there then opened file else Opened.failed Failure.missing;
  delete_entry = λ _ there. ((if there then none else some Failure.missing), false);
}

abbrev scope : Scope
scope = record { cache_root = some root; protection = some []; paths = none }

abbrev context : Context
context = record {
  key_partial = b'k' ∷ [];
  scope = scope;
  namespace = none;
  cache = none;
  files_deleted = u64 - 1;
  delete_errors = 0;
  scan_errors = 0;
  bytes_deleted = u64 - 3;
}

is_protected_path_iff_example : (is_protected_path plain false scope (some path) ≡ false) ↔ (
    (path_contains plain false path root ≡ true)
    × All (λ name. ¬ Blocks plain false root path name) (protected_names scope))
is_protected_path_iff_example = is_protected_path_iff plain false scope root path refl

-- The file goes.
deleted : (delete_file plain false native disk path context true).1 ≡ false
unfolding delete_file judge_entry remove_file unlink may_go key_matches is_out_of_scope
    is_protected_path protected_names any_blocks path_contains path_equal path_length trim_length
    char_at is_cache_file all_hex is_hex read_key read_opened read_header read_marker read_buffer
    header_fits name_fits named_by bytes_eq
deleted = refl

changed : (delete_file plain false native disk path context true).1 ≢ true
changed e = cc (deleted, e)

delete_file_due_example :
    (is_protected_path plain false context.scope (some path) ≡ false)
    × (is_cache_file path ≡ true)
    × ((e : Entry) × (read_key native path (wanted context) (disk.open_entry path true) ≡ got e)
        × IsStale plain false native disk context.namespace (take e.entry_key_len e.key_buffer)
        × Matches plain false native disk context.cache context.key_partial e.key_buffer)
delete_file_due_example = delete_file_due plain false native disk path context true changed

context-IsBounded : IsBounded context
context-IsBounded = record {
  files_deleted_lt = omega arith;
  delete_errors_lt = omega arith;
  scan_errors_lt = omega arith;
  bytes_deleted_lt = omega arith;
}

entry : Entry
entry = record { count = 1; key_buffer = b'k' ∷ 10 ∷ []; entry_key_len = 1; file_size = 11 }

entry_read : read_key native path 1 (opened file) ≡ got entry
unfolding entry read_key read_opened read_header read_marker read_buffer header_fits name_fits
    named_by bytes_eq char_at
entry_read = refl

read_key-IsKey_example : IsKey 1 entry
read_key-IsKey_example = read_key-IsKey native path 1 (opened file) entry entry_read

abbrev leaf : ℕ → ℕ → Tree
leaf key size =
    branch (record { key = key; rest = []; exists = true; fs_size = size }) sentinel sentinel

-- Three files of 30 blocks.
abbrev tree : Tree
tree = branch (record { key = 5; rest = []; exists = true; fs_size = 10 }) (leaf 2 15) (leaf 9 5)

-- A root with the file in it, while it is there.
abbrev dirs : Dirs Bool
dirs = record {
  alloc = λ _ there. (true, there);
  open_dir = λ _ there. (OpenedDir.handle 4, there);
  read_dir = λ _ there. ((if there then NextEntry.entry digits else NextEntry.no_more), there);
  close_dir = λ _ there. (true, there);
  de_info = λ _ there. (Kind.regular, there);
  file_info = λ _ there. (FileInfo.size_of 11, there);
  late = λ _. false;
}

abbrev visit : List ℕ → ℕ → Context → Bool → Context × Bool
visit path size ctx there = delete_file plain false native disk path ctx there

abbrev cursor : Cursor
cursor = record { ctx = context; frames = []; path = []; allocated = 0; started = false }

walk_step_returns_example : is_some (walk_step plain false dirs 64 visit 64 65 cursor true) ≡ true
walk_step_returns_example =
    walk_step_returns plain false dirs 64 visit 64 65 cursor true (omega arith) (omega arith)

-- A system that keeps the handles that are open: the root holds one file, which is kept.
abbrev handled : Dirs (Bool × List ℕ)
handled = record {
  alloc = λ _ d. (true, d);
  open_dir = λ _ d. (OpenedDir.handle 4, (d.0, 4 ∷ d.1));
  read_dir = λ _ d. ((if d.0 then NextEntry.entry digits else NextEntry.no_more), (false, d.1));
  close_dir = λ _ d. (false, (d.0, drop 1 d.1));
  de_info = λ _ d. (Kind.regular, d);
  file_info = λ _ d. (FileInfo.size_of 11, d);
  late = λ _. false;
}

abbrev keep : List ℕ → ℕ → Context → Bool × List ℕ → Context × (Bool × List ℕ)
keep name size ctx d = (ctx, d)

handled_laws : DirsLaws handled keep
handled_laws = record {
  open_dirs = λ d. d.1;
  open_alloc = λ _ _. refl;
  open_open = λ _ _. refl;
  open_read = λ _ _. refl;
  open_close = λ h hs d e. ap (λ l. drop 1 l) e;
  open_de_info = λ _ _. refl;
  open_file_info = λ _ _. refl;
  open_visit = λ _ _ _ _. refl;
}

-- The directory cannot be closed properly, which counts as an error.
abbrev kept : Walked (Bool × List ℕ)
kept = record {
  rc = error;
  cursor = record {
    ctx = record context { scan_errors = 1 };
    frames = [];
    path = root;
    allocated = 72;
    started = true;
  };
  disk = (false, 9 ∷ []);
}

walked : walk_step plain false handled 64 keep 64 65 cursor (true, 9 ∷ []) ≡ some kept
unfolding walk_step walk_start walk_loop walk_round walk_name walk_open walk_close walk_entry
    walk_file join bytes_eq
walked = refl

walk_step-Leaves_example :
    handled_laws.open_dirs kept.disk
    ≡ (if is_again kept.rc then handles kept.cursor.frames ++ (9 ∷ []) else 9 ∷ [])
unfolding handled_laws
walk_step-Leaves_example =
    walk_step-Leaves plain false handled 64 keep handled_laws (9 ∷ []) 64 65 cursor (true, 9 ∷ [])
      kept (λ _. refl) refl walked
