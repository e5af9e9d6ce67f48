-- ===== src/Aru.antt =====
-- The trading signals of backend/src/services/aruAlgo.ts, and the candles that aruAlgoService.ts builds
-- for them from ticks.
pub mod Numbers
pub mod Algo
pub mod Process
pub mod Window
pub mod Signals
pub mod Service
pub mod Candles
mod Tests
