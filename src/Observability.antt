-- ===== src/Observability.antt =====
-- backend/core/observability: what the metrics and the logs make of requests.
pub mod LogFormat
pub mod Metrics
pub mod Paths
