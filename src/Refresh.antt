-- ===== src/Refresh.antt =====
-- The refresh of entries (ngx_cache_purge_refresh.c): the batch that a scan collects, the cursor of
-- a client, the job that probes the entries of a batch one by one, and the guard of a probe.
pub mod Batch
pub mod Smallest
pub mod Complete
pub mod Cursor
pub mod Job
pub mod Step
pub mod Paired
pub mod Harmless
pub mod Credit
pub mod Profile
pub mod Report
mod Tests
