-- ===== src/Queue/Background.antt =====
-- `ngx_http_cache_purge_background_handler`: one run of a worker's timer.
use ngx_cache_purge.Prelude.{
  ℕ, zero, suc, ◌+◌, ◌*◌, ◌≤◌, ◌<◌, ◌≡◌, refl, Bool, true, false, Option, leb, if◌then◌else◌, arith,
}
use ngx_cache_purge.Ngx.{Slab, Rc, ok, error, again, busy, done, declined, abort}
use ngx_cache_purge.Generation.State.{is_some}
use ngx_cache_purge.Queue.Clock.{age}
use ngx_cache_purge.Queue.State.{Queue}
use ngx_cache_purge.Queue.Recover.{recover}
use ngx_cache_purge.Queue.Process.{Walker, Work, Worker, process_queue}

-- What the worker keeps between two runs, with the queue.
pub record Loop (S C : Type 0) : Type 0 where
  pub queue : Queue S
  pub work : Work C
  pub batch : ℕ
  pub recover_at : ℕ

-- The settings `cache_purge_batch_size` and `cache_purge_throttle_ms`.
pub record Pace : Type 0 where
  pub batch_size : ℕ
  pub throttle_ms : ℕ

-- A run that ends, with the delay until the next one if the loop came to a `break`; `stuck` when
-- there were no rounds left, which the theorem below excludes.
pub data Ended (S C : Type 0) : Type 0 where
  pause : ℕ → Loop S C → Ended S C
  left : Loop S C → Ended S C
  stuck : Ended S C

-- `start` is the time of the call. Round `n` of the loop finds the worker as `rounds n` says, and
-- `late n` tells whether 5 ms are over behind it.
module _ {S C : Type 0} (slab : Slab S) (walker : Walker C) (pace : Pace) (rounds : ℕ → Worker)
    (late : ℕ → Bool) where
  -- Behind a call that made progress: a full batch or 5 ms end the run.
  unfoldable pub next_round : ℕ → Loop S C → Ended S C → Ended S C
  next_round n l next =
      if leb pace.batch_size (l.batch + 1)
      then pause pace.throttle_ms (record l { batch = 0 })
      else if late n
      then pause 1 (record l { batch = l.batch + 1 })
      else next

  -- What follows one `ngx_http_cache_purge_process_queue`: the end of the run, or the next round.
  unfoldable pub after_round : Rc → ℕ → Loop S C → Ended S C → Ended S C
  after_round done n l next = left l
  after_round ok n l next = pause (pace.throttle_ms * 10) (record l { batch = 0 })
  after_round busy n l next = pause (if is_some l.work.item then 1 else 10) l
  after_round rc n l next = next_round n l next

  -- The loop, with `fuel` rounds left, `n` rounds being over.
  unfoldable pub batch_loop : ℕ → ℕ → Loop S C → Ended S C
  batch_loop zero n l = stuck
  batch_loop (suc fuel) n l =
      let p = process_queue slab walker (rounds n) false l.queue l.work in
      let l' = record l { queue = p.queue; work = p.work } in
      let next = batch_loop fuel (n + 1) (record l' { batch = l.batch + 1 }) in
      after_round p.rc n l' next

  -- The recovery once in a second, and the loop.
  unfoldable pub background_handler : (ℕ → Bool) → Option ℕ → ℕ → Bool → ℕ → Loop S C → Ended S C
  background_handler process_alive slot start locked fuel l =
      let l' =
        if leb 1000 (age start l.recover_at)
        then record l {
          recover_at = start;
          queue = recover process_alive slot start locked l.queue;
        }
        else l in
      batch_loop fuel 0 l'

abbrev pub is_stuck : {S C : Type 0} → Ended S C → Bool
is_stuck (pause delay l) = false
is_stuck (left l) = false
is_stuck stuck = true

module _ {S C : Type 0} (slab : Slab S) (walker : Walker C) (pace : Pace) (rounds : ℕ → Worker)
    (late : ℕ → Bool) where
  next_round_ends :
      (n : ℕ) (l : Loop S C) (next : Ended S C)
      → (l.batch + 1 < pace.batch_size → is_stuck next ≡ false)
      → is_stuck (next_round slab walker pace rounds late n l next) ≡ false
  unfolding next_round
  next_round_ends n l next h = ground arith

  after_round_ends :
      (rc : Rc) (n : ℕ) (l : Loop S C) (next : Ended S C)
      → (l.batch + 1 < pace.batch_size → is_stuck next ≡ false)
      → is_stuck (after_round slab walker pace rounds late rc n l next) ≡ false
  unfolding after_round
  after_round_ends done n l next h = refl
  after_round_ends ok n l next h = refl
  after_round_ends busy n l next h = refl
  after_round_ends error n l next h = next_round_ends n l next h
  after_round_ends again n l next h = next_round_ends n l next h
  after_round_ends declined n l next h = next_round_ends n l next h
  after_round_ends abort n l next h = next_round_ends n l next h

  batch_loop_ends :
      (fuel n : ℕ) (l : Loop S C)
      → pace.batch_size ≤ l.batch + fuel
      → 0 < fuel
      → is_stuck (batch_loop slab walker pace rounds late fuel n l) ≡ false
  unfolding batch_loop
  batch_loop_ends zero n l h pos = ground arith
  batch_loop_ends (suc fuel) n l h pos =
      let p = process_queue slab walker (rounds n) false l.queue l.work in
      let l' : Loop S C = record l { queue = p.queue; work = p.work } in
      after_round_ends p.rc n l' _ (λ more.
        batch_loop_ends fuel (n + 1) (record l' { batch = l.batch + 1 }) (omega (arith, h))
          (omega (arith, more, h)))

  -- One run of the timer comes to its end within as many rounds as a batch has, and at least one.
  pub background_handler_ends :
      (process_alive : ℕ → Bool) (slot : Option ℕ) (start : ℕ) (locked : Bool) (fuel : ℕ)
      (l : Loop S C)
      → pace.batch_size ≤ fuel
      → 0 < fuel
      → is_stuck
          (background_handler slab walker pace rounds late process_alive slot start locked fuel l)
        ≡ false
  unfolding background_handler
  background_handler_ends process_alive slot start locked fuel l h pos =
      batch_loop_ends fuel 0 _ (omega (arith, h)) pos
