-- ===== src/Registry.antt =====
-- backend/src/services/serviceRegistry.ts: the health of the services.
pub mod Services
mod Tests
