-- ===== src/Productions.antt =====
-- Productions, which turn supplies into products: src/modules/productions/productions.service.ts.
pub mod Consumption
pub mod Lifecycle
pub mod Removal
pub mod Available
pub mod Taken
pub mod Consumed
pub mod Sound
pub mod Completed
pub mod Refilled
pub mod Removed
pub mod Totals
pub mod Frame
pub mod Drafts
pub mod Completion
pub mod Free
pub mod Twice
pub mod Reached
mod Tests
