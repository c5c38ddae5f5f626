-- ===== src/Features.antt =====
-- The features of backend/features that are the repository's own.
pub mod Health
pub mod Generation
