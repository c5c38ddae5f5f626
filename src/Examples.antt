-- ===== src/Examples.antt =====
-- Runs of the theorems and of the definitions at concrete inputs.
mod CacheRuns
mod JsonRuns
mod IdempotencyRuns
mod SecurityRuns
mod DatabaseRuns
mod ConnectionRuns
mod ObservabilityRuns
mod DomainRuns
mod ProfilingRuns
mod LoggingRuns
mod MetricsRuns
mod AppRuns
mod LifespanRuns
mod RepositoryRuns
mod PaginationRuns
mod FlagRuns
mod SettingsRuns
pub mod Server
mod AdminRuns
mod ScanRuns
mod ResponseRuns
mod FeatureRuns
