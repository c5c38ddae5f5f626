-- ===== src/Security.antt =====
-- The request guards of backend/core/security, backend/core/api/middleware and
-- backend/core/infrastructure/admin.
pub mod Proxy
pub mod Allowlist
pub mod Admission
pub mod AdminSession
pub mod CircuitBreaker
pub mod Timeout
