-- ===== src/Matching.antt =====
-- The matching worker, backend/src/services/matchingWorker.ts.
pub mod Queue
pub mod Book
pub mod Match
pub mod Invariant
pub mod Fills
pub mod Levels
pub mod Sweep
pub mod Outcome
pub mod Sorting
pub mod Resting
pub mod Cancel
pub mod Books
pub mod Worker
pub mod Trades
pub mod Dealing
pub mod Orders
pub mod Cancelled
mod Tests
pub mod Linked
