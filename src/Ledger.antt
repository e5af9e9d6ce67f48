-- ===== src/Ledger.antt =====
-- The double-entry ledger, backend/src/services/ledgerEngine.ts.
pub mod Table
pub mod Engine
pub mod Rows
pub mod Reconcile
pub mod Keeping
pub mod Conserve
pub mod Effects
mod Tests
