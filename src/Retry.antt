-- ===== src/Retry.antt =====
-- backend/src/services/retryQueue.ts: failed jobs, their delays and the dead letters.
pub mod Queue
pub mod Budget
pub mod Exhaust
mod Tests
