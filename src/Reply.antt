-- ===== src/Reply.antt =====
-- The replies of the module (ngx_cache_purge_response.c): the catalogue of results, the headers,
-- the escaping of the key, and the body in the formats that a location can ask for.
pub mod Catalog
pub mod Headers
pub mod Escape
pub mod Cdata
pub mod Body
pub mod Bounds
pub mod Disclosure
pub mod Samples
mod Tests
