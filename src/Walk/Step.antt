-- ===== src/Walk/Step.antt =====
-- `ngx_http_cache_purge_walk_step`: one slice of the walk over a tree of directories, with
-- `walk_name`, `walk_open` and `walk_close`.
use ngx_cache_purge.Prelude.{
  ℕ, ◌+◌, ◌-◌, ◌*◌, ◌/◌, ◌%◌, Bool, ◌||◌, not, List, [], ◌∷◌, ◌++◌, some, ltb, leb, if◌then◌else◌,
  length, is_empty, u64, bytes_eq,
}
use ngx_cache_purge.Ngx.{Text, Rc, ok, error, declined, abort}
use ngx_cache_purge.Walk.Native.{Failure, missing, other}
use ngx_cache_purge.Walk.Protect.{is_protected_path}
use ngx_cache_purge.Walk.Delete.{Context}

-- What the system says of a directory that is opened: a handle, that it is no directory, or a
-- failure.
pub data OpenedDir : Type 0 where
  handle : ℕ → OpenedDir
  not_directory : OpenedDir
  not_opened : Failure → OpenedDir

-- The next name in a directory, its end, or a failure.
pub data NextEntry : Type 0 where
  entry : List ℕ → NextEntry
  no_more broken : NextEntry

-- What a name stands for; links are not followed.
pub data Kind : Type 0 where
  regular directory special : Kind
  unknown : Failure → Kind

-- The size of a regular file, that it is no regular file, or a failure.
pub data FileInfo : Type 0 where
  size_of : ℕ → FileInfo
  not_file : FileInfo
  no_info : Failure → FileInfo

-- The directories in a state `D` of the system: memory, `ngx_http_cache_purge_open_dir`,
-- `ngx_read_dir`, `ngx_close_dir`, `ngx_http_cache_purge_de_info`, `_file_info`, and whether 5 ms
-- are over since the call began.
pub record Dirs (D : Type 0) : Type 0 where
  pub alloc : ℕ → D → Bool × D
  pub open_dir : List ℕ → D → OpenedDir × D
  pub read_dir : ℕ → D → NextEntry × D
  pub close_dir : ℕ → D → Bool × D
  pub de_info : List ℕ → D → Kind × D
  pub file_info : List ℕ → D → FileInfo × D
  pub late : D → Bool

-- `ngx_http_cache_purge_dir_t`: the handle and the path of the directory, up to `len`.
pub record Frame : Type 0 where
  pub dir : ℕ
  pub name : List ℕ

-- `ngx_http_cache_purge_cursor_t`: `frames` is the chain from `top`.
pub record Cursor : Type 0 where
  pub ctx : Context
  pub frames : List Frame
  pub path : List ℕ
  pub allocated : ℕ
  pub started : Bool

-- The cursor and the system after a part of the code.
pub record Walked (D : Type 0) : Type 0 where
  pub rc : Rc
  pub cursor : Cursor
  pub disk : D

-- `ctx->scan_errors++`.
abbrev pub scan_error : Cursor → Cursor
scan_error c =
    let ctx = c.ctx in record c { ctx = record ctx { scan_errors = (ctx.scan_errors + 1) % u64 } }

-- The path of a name in the directory of the cursor.
unfoldable pub join : List Frame → List ℕ → List ℕ
join [] name = name
join (f ∷ frames) name = f.name ++ (b'/' ∷ name)

abbrev pub base_length : List Frame → ℕ
base_length [] = 0
base_length (f ∷ frames) = length f.name

-- `sizeof(ngx_http_cache_purge_dir_t)` is a parameter: it holds an `ngx_dir_t`.
module _ {D : Type 0} (dirs : Dirs D) (sizeof_frame : ℕ) where
  -- The buffer grows to twice what is needed, where a size can be that large.
  unfoldable pub walk_name : List ℕ → Cursor → D → Walked D
  walk_name name c d =
      let base = base_length c.frames in
      let size = base + (if is_empty c.frames then 0 else 1) + length name in
      let capacity = if leb (size + 1) ((u64 - 1) / 2) then (size + 1) * 2 else size + 1 in
      if ltb (u64 - 3) (length name) || ltb (u64 - 1) (base + length name + 2)
      then record { rc = abort; cursor = c; disk = d }
      else if ltb size c.allocated
      then record { rc = ok; cursor = record c { path = join c.frames name }; disk = d }
      else (let (found, d') = dirs.alloc capacity d in
          if found
          then record {
            rc = ok;
            cursor = record c { path = join c.frames name; allocated = capacity };
            disk = d';
          }
          else record { rc = abort; cursor = c; disk = d' })

  unfoldable pub walk_open : Cursor → D → Walked D
  walk_open c d =
      let (found, d') = dirs.alloc sizeof_frame d in
      if not found
      then record { rc = abort; cursor = scan_error c; disk = d' }
      else (let (opened, d'') = dirs.open_dir c.path d' in
          elim opened [
            | handle h ↦ record {
              rc = ok;
              cursor = record c { frames = record { dir = h; name = c.path } ∷ c.frames };
              disk = d'';
            }
            | not_directory ↦ record { rc = declined; cursor = c; disk = d'' }
            | not_opened missing ↦ record { rc = error; cursor = c; disk = d'' }
            | not_opened other ↦ record { rc = error; cursor = scan_error c; disk = d'' }
          ])

  -- The top frame `f` is closed, with `frames` below it.
  unfoldable pub walk_close : Frame → List Frame → Cursor → D → Walked D
  walk_close f frames c d =
      let (closed, d') = dirs.close_dir f.dir d in
      let c' = record c { frames = frames; path = f.name } in
      record { rc = ok; cursor = if closed then c' else scan_error c'; disk = d' }

  -- The loops that close every frame.
  unfoldable pub close_all : List Frame → Cursor → D → Walked D
  close_all [] c d = record { rc = abort; cursor = record c { frames = [] }; disk = d }
  close_all (f ∷ frames) c d = let w = walk_close f frames c d in close_all frames w.cursor w.disk

abbrev pub is_dots : List ℕ → Bool
is_dots name = bytes_eq name (b'.' ∷ []) || bytes_eq name (b'.' ∷ b'.' ∷ [])

module _ {D : Type 0} (text : Text) (caseless : Bool) (dirs : Dirs D) (sizeof_frame : ℕ)
    (visit : List ℕ → ℕ → Context → D → Context × D) where
  -- A file: `visit` is the walk's own or `ngx_http_cache_purge_delete_file`.
  unfoldable pub walk_file : Cursor → D → Walked D
  walk_file c d =
      let (info, d') = dirs.file_info c.path d in
      elim info [
        | size_of n ↦
            (let (ctx, d'') = visit c.path n c.ctx d' in
              record { rc = ok; cursor = record c { ctx = ctx }; disk = d'' })
        | not_file ↦ record { rc = ok; cursor = c; disk = d' }
        | no_info missing ↦ record { rc = ok; cursor = c; disk = d' }
        | no_info other ↦ record { rc = ok; cursor = scan_error c; disk = d' }
      ]

  -- A directory that is not protected is entered; only a lack of memory ends the walk.
  unfoldable pub walk_directory : Cursor → D → Walked D
  walk_directory c d =
      if is_protected_path text caseless c.ctx.scope (some c.path)
      then record { rc = ok; cursor = c; disk = d }
      else walk_open dirs sizeof_frame c d

  -- A name other than `.` and `..`, whose path is in the cursor.
  unfoldable pub walk_entry : Cursor → D → Walked D
  walk_entry c d =
      let (kind, d') = dirs.de_info c.path d in
      elim kind [
        | regular ↦ walk_file c d'
        | directory ↦ walk_directory c d'
        | special ↦ record { rc = ok; cursor = c; disk = d' }
        | unknown missing ↦ record { rc = ok; cursor = c; disk = d' }
        | unknown other ↦ record { rc = ok; cursor = scan_error c; disk = d' }
      ]

  -- One round of the loop on the top frame `f`: `NGX_ABORT` stands for `goto failed`.
  unfoldable pub walk_round : Frame → List Frame → Cursor → D → Walked D
  walk_round f frames c d =
      let (next, d') = dirs.read_dir f.dir d in
      elim next [
        | no_more ↦ walk_close dirs sizeof_frame f frames c d'
        | broken ↦ walk_close dirs sizeof_frame f frames (scan_error c) d'
        | entry name ↦
            if is_dots name
            then record { rc = ok; cursor = c; disk = d' }
            else (let w = walk_name dirs sizeof_frame name c d' in
                elim w.rc [
                  | ok ↦ walk_entry w.cursor w.disk
                  | _ ↦ record { rc = abort; cursor = scan_error w.cursor; disk = w.disk }
                ])
      ]
