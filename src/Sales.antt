-- ===== src/Sales.antt =====
-- Sales: src/modules/sales/sales.service.ts and the writes of src/modules/sales/sales.repository.ts.
pub mod Items
pub mod Create
pub mod Lifecycle
pub mod Stock
pub mod Sufficient
pub mod Frame
pub mod Resolve
pub mod Conserved
pub mod Price
pub mod Restored
pub mod RoundTrip
pub mod Added
pub mod Ledger
pub mod Rows
pub mod Created
pub mod Machine
pub mod Consistent
pub mod Forward
pub mod Twice
pub mod Verdict
pub mod Profit
pub mod Bounded
mod Tests
