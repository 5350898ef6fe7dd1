-- ===== src/Queue.antt =====
-- The queue of background purges (ngx_cache_purge_queue.c).
pub mod Clock
pub mod State
pub mod Task
pub mod Paths
pub mod Enqueue
pub mod Recover
pub mod Process
pub mod Counts
pub mod Index
pub mod Lifecycle
pub mod Background
pub mod Claimed
pub mod Status
pub mod Probe
pub mod Attach
pub mod Replay
pub mod Owners
pub mod System
pub mod Samples
mod Tests
