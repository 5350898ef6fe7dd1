-- ===== src/Queue/Task.antt =====
-- `ngx_http_cache_purge_queue_item_t`, and what a slot of a path counts.
use ngx_cache_purge.Prelude.{ℕ, Bool, true, false, List, Option, none, some}

-- The item at the address `addr`: `key` is `node.str`, whose first byte is `L` or `G`; `path` is
-- the address of its path. `protection` is the address of the protected names it was accepted
-- with.
pub record Task : Type 0 where
  pub addr : ℕ
  pub key : List ℕ
  pub path : ℕ
  pub pool_name : List ℕ
  pub purge_all : Bool
  pub running : Bool
  pub rerun : Bool
  pub owner : ℕ
  pub owner_slot : ℕ
  pub owner_epoch : ℕ
  pub enqueued_at : ℕ
  pub retry_at : ℕ
  pub retries : ℕ
  pub protection : ℕ
  pub next_protection : Option ℕ

-- `if (item->next_protection != NULL)`.
abbrev pub adopt : Task → Task
adopt t = elim t.next_protection [
  | none ↦ t
  | some p ↦ record t { protection = p; next_protection = none }
]

-- A task goes back to the pending ones.
unfoldable pub requeued : ℕ → Task → Task
requeued now t =
    let t' = adopt (record t { running = false; owner = 0; rerun = false }) in
    record t' { enqueued_at = now }

-- The counters of `ngx_http_cache_purge_stats_t`.
pub data Metric : Type 0 where
  enqueued enqueued_full started started_full finished deduplicated waiting overflow deleted :
      Metric
  delete_errors deleted_bytes hit miss invalidated scan_errors retried exhausted : Metric

pub Metric-discrete : Discrete Metric
Metric-discrete = hlevel

abbrev pub as_count : Bool → ℕ
as_count false = 0
as_count true = 1
