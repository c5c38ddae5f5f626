-- ===== src/Cache.antt =====
-- The cache of backend/core/infrastructure/cache/service.py: the in-memory store that stands in for
-- Redis, the client package, and `CacheService` over the two.
pub mod Memory
pub mod Redis
pub mod Service
pub mod Store
pub mod Scan
pub mod Json
