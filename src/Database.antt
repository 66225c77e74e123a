-- ===== src/Database.antt =====
-- The database as a Prisma transaction sees it, and the transactions over it: prisma/schema.prisma
-- (the tables that the modelled services use) and src/prisma/prisma.service.ts.
mod SupplyRows
mod Rows
mod Monad
mod Rules
pub use SupplyRows.*
pub use Rows.*
unfoldable pub use Monad.*
pub use Rules.*
