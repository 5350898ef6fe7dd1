-- ===== src/Queue/Status.antt =====
-- `ngx_http_cache_purge_queue_status_snapshot`: the counters of a path summed up over the slots.
use ngx_cache_purge.Prelude.{
  ℕ, zero, suc, ◌+◌, ◌-◌, ◌<◌, ◌≡◌, ◌↔◌, Bool, true, Option, none, some, leb, ◌==◌, if◌then◌else◌,
  min, length, u64, arith,
}
use ngx_cache_purge.Queue.Clock.{age}
use ngx_cache_purge.Queue.Task.{
  Metric, enqueued, enqueued_full, started, started_full, finished, deduplicated, waiting, overflow,
  deleted, delete_errors, deleted_bytes, hit, miss, invalidated, scan_errors, retried, exhausted,
}
use ngx_cache_purge.Queue.State.{Queue, saturate}
use ngx_cache_purge.Queue.Counts.{IsCounted}

-- `ngx_http_cache_purge_queue_stat_t`, with the counters of `ngx_http_cache_purge_cache_stat_t`.
pub record CacheStat : Type 0 where
  pub pending : ℕ
  pub pending_full : ℕ
  pub active : ℕ
  pub overflow : ℕ
  pub deleted : ℕ
  pub deduplicated : ℕ
  pub waiting : ℕ
  pub errors : ℕ
  pub bytes : ℕ
  pub hits : ℕ
  pub misses : ℕ
  pub invalidated : ℕ
  pub scan_errors : ℕ
  pub retries : ℕ
  pub exhausted : ℕ

pub record QueueStat : Type 0 where
  pub size : ℕ
  pub max_size : ℕ
  pub running : ℕ
  pub wait_time : ℕ
  pub full : Bool
  pub cache : CacheStat

abbrev no_cache : CacheStat
no_cache = record {
  pending = 0;
  pending_full = 0;
  active = 0;
  overflow = 0;
  deleted = 0;
  deduplicated = 0;
  waiting = 0;
  errors = 0;
  bytes = 0;
  hits = 0;
  misses = 0;
  invalidated = 0;
  scan_errors = 0;
  retries = 0;
  exhausted = 0;
}

-- The loop over the first `n` slots: each value is added as far as 64 bits allow.
unfoldable pub sum_slots : (ℕ → ℕ) → ℕ → ℕ
sum_slots value zero = 0
sum_slots value (suc n) = saturate (sum_slots value n) (value n)

abbrev pub true_sum : (ℕ → ℕ) → ℕ → ℕ
true_sum value zero = 0
true_sum value (suc n) = true_sum value n + value n

-- `a - ngx_min(b, a)`.
abbrev pub less_by : ℕ → ℕ → ℕ
less_by a b = a - min b a

-- `max_processes` is `NGX_MAX_PROCESSES`.
unfoldable pub cache_stat : ℕ → (ℕ → Metric → ℕ) → CacheStat
cache_stat max_processes stats =
    let sum : Metric → ℕ = λ m. sum_slots (λ slot. stats slot m) max_processes in
    record {
      pending = less_by (sum enqueued) (sum started);
      pending_full = less_by (sum enqueued_full) (sum started_full);
      active = less_by (sum started) (sum finished);
      overflow = sum overflow;
      deleted = sum deleted;
      deduplicated = sum deduplicated;
      waiting = sum waiting;
      errors = sum delete_errors;
      bytes = sum deleted_bytes;
      hits = sum hit;
      misses = sum miss;
      invalidated = sum invalidated;
      scan_errors = sum scan_errors;
      retries = sum retried;
      exhausted = sum exhausted;
    }

unfoldable pub snapshot : {S : Type 0} → ℕ → ℕ → Option ℕ → Queue S → QueueStat
snapshot max_processes now path q = record {
  size = q.size;
  max_size = q.max_size;
  running = q.running;
  wait_time = if q.size == 0 then 0 else age now q.oldest;
  full = leb q.max_size (q.size + q.running);
  cache = elim path [ none ↦ no_cache | some p ↦ cache_stat max_processes (q.stats p) ];
}

-- A counter takes a value in as far as 64 bits allow, and never wraps.
pub saturate-min : (old value : ℕ) → old < u64 → saturate old value ≡ min (old + value) (u64 - 1)
unfolding saturate
saturate-min old value h = ground arith

-- The sum over the slots is the true sum, or the highest 64-bit number where that is beyond it.
pub sum_slots-true_sum :
    (value : ℕ → ℕ) (n : ℕ) → sum_slots value n ≡ min (true_sum value n) (u64 - 1)
unfolding sum_slots saturate
sum_slots-true_sum value zero = omega arith
sum_slots-true_sum value (suc n) = ground (arith, sum_slots-true_sum value n)

-- Of a queue whose counts are right, the report is about the tasks: it names as many as there are,
-- and says that the queue is full exactly when there are as many as it may hold.
pub snapshot-IsCounted :
    {S : Type 0} (max_processes now : ℕ) (path : Option ℕ) (q : Queue S)
    → IsCounted q
    → ((snapshot max_processes now path q).size ≡ length q.pending)
      × ((snapshot max_processes now path q).running ≡ length q.active)
      × (((snapshot max_processes now path q).full ≡ true)
          ↔ (length q.pending + length q.active ≡ q.max_size))
unfolding snapshot
snapshot-IsCounted max_processes now path q h = ground (arith, h)
