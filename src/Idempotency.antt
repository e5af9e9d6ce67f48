-- ===== src/Idempotency.antt =====
-- backend/src/services/idempotencyStore.ts: the answers of requests by their keys.
pub mod Store
mod Tests
