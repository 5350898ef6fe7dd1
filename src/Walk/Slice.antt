-- ===== src/Walk/Slice.antt =====
-- The loop of `ngx_http_cache_purge_walk_step`, and what a slice leaves behind.
use ngx_cache_purge.Prelude.{
  ℕ, zero, suc, ◌+◌, ◌≤◌, ◌<◌, ◌≡◌, refl, inl, inr, Bool, true, false, ◌&&◌, ◌||◌, not, List, [],
  ◌∷◌, Option, none, some, ltb, ◌==◌, if◌then◌else◌, arith, List-cases,
}
use ngx_cache_purge.Ngx.{Text, Rc, is_ok, is_again, ok, error, again, abort}
use ngx_cache_purge.Generation.State.{is_some}
use ngx_cache_purge.Walk.Delete.{Context}
use ngx_cache_purge.Walk.Step.{
  Dirs, Frame, Cursor, Walked, scan_error, walk_name, walk_open, walk_close, close_all, walk_round,
}

abbrev pub is_abort : Rc → Bool
is_abort abort = true
is_abort _ = false

-- The end of the loop.
abbrev pub outcome : Cursor → Rc
outcome c = if c.ctx.scan_errors == 0 then ok else error

abbrev pub root_of : Context → List ℕ
root_of ctx = elim ctx.scope.cache_root [ none ↦ [] | some root ↦ root ]

abbrev pub begun : Cursor → Cursor
begun c = let ctx = c.ctx in record c { started = true; ctx = record ctx { scan_errors = 0 } }

module _ {D : Type 0} (dirs : Dirs D) (sizeof_frame : ℕ) where
  -- The first call opens the root.
  unfoldable pub walk_start : Cursor → D → Walked D
  walk_start c d =
      let w = walk_name dirs sizeof_frame (root_of c.ctx) (begun c) d in
      if is_ok w.rc
      then walk_open dirs sizeof_frame w.cursor w.disk
      else record { rc = abort; cursor = scan_error w.cursor; disk = w.disk }

module _ {D : Type 0} (text : Text) (caseless : Bool) (dirs : Dirs D) (sizeof_frame : ℕ)
    (visit : List ℕ → ℕ → Context → D → Context × D) (limit : ℕ) where
  -- Before every round but the first, a slice looks at its limit and at the time.
  abbrev pub is_over : ℕ → D → Bool
  is_over n d = not (limit == 0) && not (n == 0) && (ltb limit (n + 1) || dirs.late d)

  -- The loop with `fuel` rounds left, `n` being over; `none` says that there was no round left.
  unfoldable pub walk_loop : ℕ → ℕ → Cursor → D → Option (Walked D)
  walk_loop zero n c d = none
  walk_loop (suc fuel) n c d = elim c.frames [
    | [] ↦ some (record { rc = outcome c; cursor = c; disk = d })
    | f ∷ frames ↦
        (let w = walk_round text caseless dirs sizeof_frame visit f frames c d in
          let next = walk_loop fuel (n + 1) w.cursor w.disk in
          if is_over n d
          then some (record { rc = again; cursor = c; disk = d })
          else if is_abort w.rc
          then some (close_all dirs sizeof_frame w.cursor.frames w.cursor w.disk)
          else next)
  ]

  unfoldable pub walk_step : ℕ → Cursor → D → Option (Walked D)
  walk_step fuel c d =
      if c.started
      then walk_loop fuel 0 c d
      else (let w = walk_start dirs sizeof_frame c d in
          if is_ok w.rc then walk_loop fuel 0 w.cursor w.disk else some w)

module _ {D : Type 0} (dirs : Dirs D) (sizeof_frame : ℕ) where
  close_all-frames :
      (frames : List Frame) (c : Cursor) (d : D)
      → (close_all dirs sizeof_frame frames c d).cursor.frames ≡ []
  unfolding close_all
  close_all-frames [] c d = refl
  close_all-frames (f ∷ frames) c d =
      let w = walk_close dirs sizeof_frame f frames c d in close_all-frames frames w.cursor w.disk

  pub close_all_rc :
      (frames : List Frame) (c : Cursor) (d : D)
      → (close_all dirs sizeof_frame frames c d).rc ≡ abort
  unfolding close_all
  close_all_rc [] c d = refl
  close_all_rc (f ∷ frames) c d =
      let w = walk_close dirs sizeof_frame f frames c d in close_all_rc frames w.cursor w.disk

  walk_name-frames :
      (name : List ℕ) (c : Cursor) (d : D)
      → (walk_name dirs sizeof_frame name c d).cursor.frames ≡ c.frames
  unfolding walk_name
  walk_name-frames name c d = ground arith

  walk_open-frames :
      (c : Cursor) (d : D)
      → is_ok (walk_open dirs sizeof_frame c d).rc ≡ false
      → ((walk_open dirs sizeof_frame c d).cursor.frames ≡ c.frames)
        × (is_again (walk_open dirs sizeof_frame c d).rc ≡ false)
  unfolding walk_open
  walk_open-frames c d h = ground arith

module _ {D : Type 0} (text : Text) (caseless : Bool) (dirs : Dirs D) (sizeof_frame : ℕ)
    (visit : List ℕ → ℕ → Context → D → Context × D) (limit : ℕ) where
  walk_loop_returns :
      (fuel n : ℕ) (c : Cursor) (d : D)
      → 0 < limit
      → limit + 1 ≤ n + fuel
      → 0 < fuel
      → is_some (walk_loop text caseless dirs sizeof_frame visit limit fuel n c d) ≡ true
  unfolding walk_loop
  walk_loop_returns zero n c d pos h fuel_pos = ground arith
  walk_loop_returns (suc fuel) n c d pos h fuel_pos = elim (List-cases c.frames) [
    | inl e ↦ rw (e, walk_loop) refl
    | inr (f, frames, e) ↦
        let w = walk_round text caseless dirs sizeof_frame visit f frames c d in
        rw (e, walk_loop) (ground (arith, walk_loop_returns fuel (n + 1) w.cursor w.disk pos))
  ]

  -- A slice with a limit above 0 returns when it has more rounds than the limit.
  pub walk_step_returns :
      (fuel : ℕ) (c : Cursor) (d : D)
      → 0 < limit
      → limit < fuel
      → is_some (walk_step text caseless dirs sizeof_frame visit limit fuel c d) ≡ true
  unfolding walk_step
  walk_step_returns fuel c d pos h =
      let w = walk_start dirs sizeof_frame c d in
      ground (
        arith,
        walk_loop_returns fuel 0 c d pos (omega (arith, h)) (omega (arith, h)),
        walk_loop_returns fuel 0 w.cursor w.disk pos (omega (arith, h)) (omega (arith, h)),
      )

  pub walk_start-frames :
      (c : Cursor) (d : D)
      → c.frames ≡ []
      → let w = walk_start dirs sizeof_frame c d in
        is_ok w.rc ≡ false → (w.cursor.frames ≡ []) × (is_again w.rc ≡ false)
  unfolding walk_start
  walk_start-frames c d e h =
      let b = begun c in
      let v = walk_name dirs sizeof_frame (root_of c.ctx) b d in
      ground (
        arith,
        e,
        walk_name-frames dirs sizeof_frame (root_of c.ctx) b d,
        walk_open-frames dirs sizeof_frame v.cursor v.disk,
      )
