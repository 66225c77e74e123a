-- ===== src/SupplyPurchases.antt =====
-- Purchases of supplies: src/modules/supply-purchases/supply-purchases.service.ts.
pub mod Lines
pub mod Lifecycle
pub mod Received
pub mod Forgotten
pub mod Withdrawn
pub mod Sound
pub mod Refused
pub mod Steps
pub mod Frame
