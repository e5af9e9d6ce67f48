-- ===== src/Gateway.antt =====
-- backend/src/index.ts and frontend/src/hooks/useWebSockets.ts: the two ends of the sockets.
pub mod Bridge
pub mod Rooms
pub mod Routes
pub mod Client
pub mod Shown
mod Tests
