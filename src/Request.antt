-- ===== src/Request.antt =====
-- A request to purge (ngx_cache_purge_handler.c): who may send it, which cache it is for, its key,
-- and what is done with it.
pub mod Access
pub mod Clients
pub mod Entry
pub mod Init
pub mod Dispatch
pub mod Wait
pub mod Purge
pub mod Guard
pub mod Gauge
pub mod Balance
pub mod Report
pub mod Accept
mod Tests
