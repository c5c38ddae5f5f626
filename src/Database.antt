-- ===== src/Database.antt =====
-- backend/core/infrastructure/database: the mapping of database exceptions and the unit of work.
pub mod Errors
pub mod Connection
pub mod Repository
pub mod UnitOfWork
