-- ===== src/Watch.antt =====
-- The measurements of the running system, backend/src/services/observability.ts.
pub mod Metrics
mod Tests
