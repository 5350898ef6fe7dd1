-- ===== src/Generation.antt =====
-- Generation keys (ngx_cache_purge_invalidation.c): a namespace keeps a serial, a baseline and two
-- tries of rules, and every cache key carries the generation that was current when it was made.
pub mod Rule
pub mod Key
pub mod State
pub mod Snapshot
pub mod Init
mod Tests
