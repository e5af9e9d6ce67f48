-- ===== src/Feed.antt =====
-- Where ticks come from, backend/src/services/marketIngestion.ts.
pub mod Ingestion
pub mod Source
mod Tests
