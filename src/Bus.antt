-- ===== src/Bus.antt =====
-- The event bus, backend/src/services/eventBus.ts.
pub mod Stream
pub mod Deliver
pub mod Progress
mod Tests
