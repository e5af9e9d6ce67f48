-- ===== src/Chart.antt =====
-- frontend/src/components/TVChart.tsx and backend/src/controllers/market.ts: the indicators that the chart
-- draws, and candles that are made up for it.
pub mod Math
pub mod Aligned
pub mod Stable
pub mod Backfill
mod Tests
