-- ===== src/Triggers.antt =====
-- backend/src/services/triggerEngine.ts: stop and take-profit orders that wait for a price.
pub mod Engine
pub mod Fired
mod Tests
