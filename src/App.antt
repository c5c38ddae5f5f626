-- ===== src/App.antt =====
-- backend/features/main.py: what the application is put together from.
pub mod Middleware
pub mod Lifespan
pub mod Shutdown
pub mod Profiling
