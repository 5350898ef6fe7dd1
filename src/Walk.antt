-- ===== src/Walk.antt =====
-- The walk of a cache directory (ngx_cache_purge_walk.c): which paths it may touch, how it reads
-- the key of an entry, the node of an entry in the native cache, and the removal of an entry.
pub mod Protect
pub mod Native
pub mod Key
pub mod Tree
pub mod Delete
pub mod Step
pub mod Slice
pub mod Handles
pub mod Safety
pub mod Accounts
mod Tests
