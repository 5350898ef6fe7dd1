-- ===== src/Config.antt =====
-- The configuration (ngx_cache_purge_module.c): the directives, the inheritance of locations, the
-- size of the zone of the queue, and the checks after the configuration is read.
pub mod Purge
pub mod Lists
pub mod Networks
pub mod Settings
pub mod Merge
pub mod Merged
pub mod Gates
pub mod Nested
pub mod Zone
pub mod Sizing
pub mod Reload
pub mod Known
pub mod Directives
pub mod Separate
pub mod Once
pub mod Bound
pub mod Namespaces
pub mod Apart
pub mod Variables
mod Tests
