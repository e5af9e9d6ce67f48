-- ===== src/Events.antt =====
-- backend/src/services/eventStore.ts: the append-only table of domain events.
pub mod Store
pub mod Keep
pub mod History
pub mod Log
mod Tests
