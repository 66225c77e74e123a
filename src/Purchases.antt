-- ===== src/Purchases.antt =====
-- Product purchases: src/modules/product-purchases/product-purchases.service.ts.
pub mod Lines
pub mod Lifecycle
pub mod Consolidated
pub mod Balanced
pub mod Kept
pub mod Operations
pub mod Conserved
mod Tests
