-- ===== src/Venue.antt =====
-- backend/src/services/omsEngine.ts, matchingEngine.ts and matchingWorker.ts, working together over one
-- event log.
pub mod System
mod Grows
pub mod Replay
pub mod Settle
mod Tests
