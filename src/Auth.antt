-- ===== src/Auth.antt =====
-- Registration and sessions, backend/src/controllers/auth.ts.
pub mod Users
pub mod Session
pub mod Growth
mod Legs
pub mod Seed
pub mod Money
mod Kept
pub mod Visit
mod Tests
