-- ===== src/Walk/Handles.antt =====
-- The directories that a walk has open: `ngx_open_dir` and `ngx_close_dir` in `walk_open` and
-- `walk_close`.
use mathlib.Core.Path.{subst}
use ngx_cache_purge.Prelude.{
  ℕ, ◌+◌, ◌-◌, ◌*◌, ◌/◌, leb, u64, length, is_empty, zero, suc, ◌≡◌, ◌⊎◌, refl, ◌∙◌, ap, inl, inr,
  Bool, false, List, [], ◌∷◌, ◌++◌, some, if◌then◌else◌, arith, List-cases, Bool-cases,
}
use ngx_cache_purge.Ngx.{Text, Rc, is_ok, is_again, ok}
use ngx_cache_purge.Walk.Delete.{Context}
use ngx_cache_purge.Walk.Native.{missing, other}
use ngx_cache_purge.Walk.Step.{
  Dirs, OpenedDir, handle, NextEntry, Kind, FileInfo, Frame, Cursor, Walked, walk_name, walk_open,
  walk_close, close_all, walk_file, walk_directory, walk_entry, walk_round, scan_error, base_length,
  is_dots,
}
use ngx_cache_purge.Walk.Slice.{
  begun, root_of, walk_start, walk_start-frames, walk_loop, walk_step, close_all_rc,
}

-- The handle of an opened directory, in front of those that are open already.
abbrev pub opened_on : OpenedDir → List ℕ → List ℕ
opened_on (handle h) hs = h ∷ hs
opened_on _ hs = hs

-- What the system says of its open directories, the last opened first: only `ngx_open_dir` adds one,
-- and `ngx_close_dir` takes one away, also where it reports an error.
pub record DirsLaws {D : Type 0} (dirs : Dirs D) (visit : List ℕ → ℕ → Context → D → Context × D)
    : Type 0 where
  pub open_dirs : D → List ℕ
  pub open_alloc : (size : ℕ) (d : D) → open_dirs (dirs.alloc size d).1 ≡ open_dirs d
  pub open_open :
      (path : List ℕ) (d : D)
      → open_dirs (dirs.open_dir path d).1 ≡ opened_on (dirs.open_dir path d).0 (open_dirs d)
  pub open_read : (h : ℕ) (d : D) → open_dirs (dirs.read_dir h d).1 ≡ open_dirs d
  pub open_close :
      (h : ℕ) (hs : List ℕ) (d : D) → open_dirs d ≡ h ∷ hs → open_dirs (dirs.close_dir h d).1 ≡ hs
  pub open_de_info : (path : List ℕ) (d : D) → open_dirs (dirs.de_info path d).1 ≡ open_dirs d
  pub open_file_info : (path : List ℕ) (d : D) → open_dirs (dirs.file_info path d).1 ≡ open_dirs d
  pub open_visit :
      (path : List ℕ) (n : ℕ) (ctx : Context) (d : D)
      → open_dirs (visit path n ctx d).1 ≡ open_dirs d

FileInfo-cases :
    (i : FileInfo)
    → ((n : ℕ) × (i ≡ FileInfo.size_of n))
      ⊎ ((i ≡ FileInfo.not_file) ⊎ ((i ≡ FileInfo.no_info missing) ⊎ (i ≡ FileInfo.no_info other)))
FileInfo-cases (FileInfo.size_of n) = inl (n, refl)
FileInfo-cases FileInfo.not_file = inr (inl refl)
FileInfo-cases (FileInfo.no_info missing) = inr (inr (inl refl))
FileInfo-cases (FileInfo.no_info other) = inr (inr (inr refl))

Kind-cases :
    (k : Kind)
    → (k ≡ Kind.regular)
      ⊎ ((k ≡ Kind.directory)
          ⊎ ((k ≡ Kind.special) ⊎ ((k ≡ Kind.unknown missing) ⊎ (k ≡ Kind.unknown other))))
Kind-cases Kind.regular = inl refl
Kind-cases Kind.directory = inr (inl refl)
Kind-cases Kind.special = inr (inr (inl refl))
Kind-cases (Kind.unknown missing) = inr (inr (inr (inl refl)))
Kind-cases (Kind.unknown other) = inr (inr (inr (inr refl)))

NextEntry-cases :
    (n : NextEntry)
    → ((name : List ℕ) × (n ≡ NextEntry.entry name))
      ⊎ ((n ≡ NextEntry.no_more) ⊎ (n ≡ NextEntry.broken))
NextEntry-cases (NextEntry.entry name) = inl (name, refl)
NextEntry-cases NextEntry.no_more = inr (inl refl)
NextEntry-cases NextEntry.broken = inr (inr refl)

-- The handles of the frames, from the top.
abbrev pub handles : List Frame → List ℕ
handles [] = []
handles (f ∷ frames) = f.dir ∷ handles frames

module _ {D : Type 0} (text : Text) (caseless : Bool) (dirs : Dirs D) (sizeof_frame : ℕ)
    (visit : List ℕ → ℕ → Context → D → Context × D) (laws : DirsLaws dirs visit)
    (before : List ℕ) where
  -- The open directories are those of the frames and those from before the walk.
  abbrev pub IsTracked : List Frame → D → Type 0
  IsTracked frames d = laws.open_dirs d ≡ handles frames ++ before

  abbrev Tracks : Walked D → Type 0
  Tracks w = IsTracked w.cursor.frames w.disk

  walk_name-Tracks :
      (name : List ℕ) (c : Cursor) (d : D)
      → IsTracked c.frames d
      → Tracks (walk_name dirs sizeof_frame name c d)
  unfolding walk_name
  walk_name-Tracks name c d h =
      let size = base_length c.frames + (if is_empty c.frames then 0 else 1) + length name in
      let capacity = if leb (size + 1) ((u64 - 1) / 2) then (size + 1) * 2 else size + 1 in
      ground (arith, h, laws.open_alloc capacity d)

  opened-IsTracked :
      (o : OpenedDir) (c : Cursor) (hs : List ℕ) (d : D)
      → hs ≡ handles c.frames ++ before
      → laws.open_dirs d ≡ opened_on o hs
      → Tracks (elim o [
        | handle h ↦ record {
          rc = ok;
          cursor = record c { frames = record { dir = h; name = c.path } ∷ c.frames };
          disk = d;
        }
        | OpenedDir.not_directory ↦ record { rc = Rc.declined; cursor = c; disk = d }
        | OpenedDir.not_opened missing ↦ record { rc = Rc.error; cursor = c; disk = d }
        | OpenedDir.not_opened other ↦ record { rc = Rc.error; cursor = scan_error c; disk = d }
      ])
  opened-IsTracked (handle h) c hs d e l = l ∙ ap (λ x. h ∷ x) e
  opened-IsTracked OpenedDir.not_directory c hs d e l = l ∙ e
  opened-IsTracked (OpenedDir.not_opened missing) c hs d e l = l ∙ e
  opened-IsTracked (OpenedDir.not_opened other) c hs d e l = l ∙ e

  walk_open-Tracks :
      (c : Cursor) (d : D) → IsTracked c.frames d → Tracks (walk_open dirs sizeof_frame c d)
  unfolding walk_open
  walk_open-Tracks c d h =
      let d' = (dirs.alloc sizeof_frame d).1 in
      let e = laws.open_alloc sizeof_frame d ∙ h in
      elim (Bool-cases (dirs.alloc sizeof_frame d).0) [
        | inr no_memory ↦ rw no_memory e
        | inl room ↦ rw room (
            opened-IsTracked (dirs.open_dir c.path d').0 c (laws.open_dirs d') _ e
              (laws.open_open c.path d'))
      ]

  walk_close-Tracks :
      (f : Frame) (frames : List Frame) (c : Cursor) (d : D)
      → IsTracked (f ∷ frames) d
      → Tracks (walk_close dirs sizeof_frame f frames c d)
  unfolding walk_close
  walk_close-Tracks f frames c d h =
      ground (arith, laws.open_close f.dir (handles frames ++ before) d h)

  close_all-Tracks :
      (frames : List Frame) (c : Cursor) (d : D)
      → IsTracked frames d
      → laws.open_dirs (close_all dirs sizeof_frame frames c d).disk ≡ before
  unfolding close_all walk_close
  close_all-Tracks [] c d h = h
  close_all-Tracks (f ∷ frames) c d h =
      let w = walk_close dirs sizeof_frame f frames c d in
      close_all-Tracks frames w.cursor w.disk (laws.open_close f.dir (handles frames ++ before) d h)

  walk_file-Tracks :
      (c : Cursor) (d : D)
      → IsTracked c.frames d
      → Tracks (walk_file text caseless dirs sizeof_frame visit c d)
  unfolding walk_file
  walk_file-Tracks c d h =
      let d' = (dirs.file_info c.path d).1 in
      let e = laws.open_file_info c.path d ∙ h in
      elim (FileInfo-cases (dirs.file_info c.path d).0) [
        | inl (n, found) ↦ rw (found, walk_file) (laws.open_visit c.path n c.ctx d' ∙ e)
        | inr (inl found) ↦ rw (found, walk_file) e
        | inr (inr (inl found)) ↦ rw (found, walk_file) e
        | inr (inr (inr found)) ↦ rw (found, walk_file) e
      ]

  walk_directory-Tracks :
      (c : Cursor) (d : D)
      → IsTracked c.frames d
      → Tracks (walk_directory text caseless dirs sizeof_frame visit c d)
  unfolding walk_directory
  walk_directory-Tracks c d h = ground (arith, h, walk_open-Tracks c d h)

  walk_entry-Tracks :
      (c : Cursor) (d : D)
      → IsTracked c.frames d
      → Tracks (walk_entry text caseless dirs sizeof_frame visit c d)
  unfolding walk_entry
  walk_entry-Tracks c d h =
      let d' = (dirs.de_info c.path d).1 in
      let e = laws.open_de_info c.path d ∙ h in
      elim (Kind-cases (dirs.de_info c.path d).0) [
        | inl found ↦ rw (found, walk_entry) (walk_file-Tracks c d' e)
        | inr (inl found) ↦ rw (found, walk_entry) (walk_directory-Tracks c d' e)
        | inr (inr (inl found)) ↦ rw (found, walk_entry) e
        | inr (inr (inr (inl found))) ↦ rw (found, walk_entry) e
        | inr (inr (inr (inr found))) ↦ rw (found, walk_entry) e
      ]

  named-Tracks :
      (rc : Rc) (w : Walked D)
      → Tracks w
      → Tracks (elim rc [
        | ok ↦ walk_entry text caseless dirs sizeof_frame visit w.cursor w.disk
        | _ ↦ record { rc = Rc.abort; cursor = scan_error w.cursor; disk = w.disk }
      ])
  named-Tracks ok w h = walk_entry-Tracks w.cursor w.disk h
  named-Tracks Rc.error w h = h
  named-Tracks Rc.again w h = h
  named-Tracks Rc.busy w h = h
  named-Tracks Rc.done w h = h
  named-Tracks Rc.declined w h = h
  named-Tracks Rc.abort w h = h

  walk_round-Tracks :
      (f : Frame) (frames : List Frame) (c : Cursor) (d : D)
      → c.frames ≡ f ∷ frames
      → IsTracked c.frames d
      → Tracks (walk_round text caseless dirs sizeof_frame visit f frames c d)
  unfolding walk_round
  walk_round-Tracks f frames c d top h =
      let d' = (dirs.read_dir f.dir d).1 in
      let e : IsTracked c.frames d' = laws.open_read f.dir d ∙ h in
      let e' : IsTracked (f ∷ frames) d' = subst (λ fs. IsTracked fs d') top e in
      elim (NextEntry-cases (dirs.read_dir f.dir d).0) [
        | inr (inl found) ↦ rw (found, walk_round) (walk_close-Tracks f frames c d' e')
        | inr (inr found) ↦ rw (found, walk_round) (walk_close-Tracks f frames (scan_error c) d' e')
        | inl (name, found) ↦ elim (Bool-cases (is_dots name)) [
          | inl dots ↦ rw (found, walk_round, dots) e
          | inr real ↦
              rw (found, walk_round, real)
                (let v = walk_name dirs sizeof_frame name c d' in
                  named-Tracks v.rc v (walk_name-Tracks name c d' e))
        ]
      ]

  -- What a slice leaves: the open directories of its frames if it is to be gone on with, and
  -- otherwise those from before the walk.
  abbrev pub Leaves : Walked D → Type 0
  Leaves w =
      laws.open_dirs w.disk ≡ (if is_again w.rc then handles w.cursor.frames ++ before else before)

  walk_loop-Leaves :
      (limit fuel n : ℕ) (c : Cursor) (d : D) (w : Walked D)
      → IsTracked c.frames d
      → walk_loop text caseless dirs sizeof_frame visit limit fuel n c d ≡ some w
      → Leaves w
  unfolding walk_loop
  walk_loop-Leaves limit zero n c d w h e = cc
  walk_loop-Leaves limit (suc fuel) n c d w h e = elim (List-cases c.frames) [
    | inl nil ↦ ground (arith, nil, h, e)
    | inr (f, frames, top) ↦
        let v = walk_round text caseless dirs sizeof_frame visit f frames c d in
        let tracked = walk_round-Tracks f frames c d top h in
        ground (
          arith,
          top,
          h,
          e,
          walk_loop-Leaves limit fuel (n + 1) v.cursor v.disk w tracked,
          close_all-Tracks v.cursor.frames v.cursor v.disk tracked,
          close_all_rc dirs sizeof_frame v.cursor.frames v.cursor v.disk,
        )
  ]

  walk_start-Tracks :
      (c : Cursor) (d : D) → IsTracked c.frames d → Tracks (walk_start dirs sizeof_frame c d)
  unfolding walk_start
  walk_start-Tracks c d h =
      let b = begun c in
      let v = walk_name dirs sizeof_frame (root_of c.ctx) b d in
      let named = walk_name-Tracks (root_of c.ctx) b d h in
      ground (arith, named, walk_open-Tracks v.cursor v.disk named)

  -- If the open directories are those of the frames of a walk and the ones from before it, with no
  -- frame before its first slice, then a slice that returns `NGX_AGAIN` leaves it so, and a slice that
  -- returns anything else, errors included, leaves only those from before the walk open.
  pub walk_step-Leaves :
      (limit fuel : ℕ) (c : Cursor) (d : D) (w : Walked D)
      → (c.started ≡ false → c.frames ≡ [])
      → laws.open_dirs d ≡ handles c.frames ++ before
      → walk_step text caseless dirs sizeof_frame visit limit fuel c d ≡ some w
      → laws.open_dirs w.disk
        ≡ (if is_again w.rc then handles w.cursor.frames ++ before else before)
  unfolding walk_step
  walk_step-Leaves limit fuel c d w fresh h e = elim (Bool-cases c.started) [
    | inl going ↦ ground (arith, going, e, walk_loop-Leaves limit fuel 0 c d w h)
    | inr first ↦
        let v = walk_start dirs sizeof_frame c d in
        let tracked = walk_start-Tracks c d h in
        elim (Bool-cases (is_ok v.rc)) [
          | inl goes ↦
              walk_loop-Leaves limit fuel 0 v.cursor v.disk w tracked
                (ground (arith, first, goes, e))
          | inr fails ↦
              let (none', stays) =
                walk_start-frames text caseless dirs sizeof_frame visit limit c d (fresh first)
                  fails in
              ground (arith, first, fails, e, none', stays, tracked)
        ]
  ]
