-- ===== src/Cache.antt =====
-- common/src/chunk_cache.rs: the cache of chunks that is shared by all connections.
pub mod Raw
pub mod Batch
pub mod File
mod Tests
