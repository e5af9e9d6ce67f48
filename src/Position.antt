-- ===== src/Position.antt =====
-- backend/src/services/positionEngine.ts and riskEngine.ts: positions, margins and pre-trade checks.
pub mod Engine
pub mod Risk
pub mod Net
pub mod Marks
pub mod RoundTrip
mod Tests
