-- ===== src/Front.antt =====
-- frontend/src/components: the order form, the order book's view, the balance sheet and the inspector of
-- the ledger.
pub mod Form
pub mod Depth
pub mod Sheet
pub mod Inspector
mod Tests
