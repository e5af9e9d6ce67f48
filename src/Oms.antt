-- ===== src/Oms.antt =====
-- backend/src/services/omsEngine.ts: the life of an order, from its intent to its projections.
pub mod Intents
pub mod Engine
pub mod Once
mod Tests
