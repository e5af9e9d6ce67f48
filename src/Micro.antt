-- ===== src/Micro.antt =====
-- The analysis of order books, backend/src/services/microstructureAnalytics.ts.
pub mod Metrics
pub mod Range
mod Tests
