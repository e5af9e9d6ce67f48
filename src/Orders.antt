-- ===== src/Orders.antt =====
-- backend/src/controllers/order.ts, and the wiring of backend/src/services/matchingEngine.ts.
pub mod Api
pub mod Wiring
mod Tests
