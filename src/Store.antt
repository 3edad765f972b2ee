-- ===== src/Store.antt =====
-- The database that the services share (apps/api/prisma/schema.prisma), as one record of tables, and
-- the actions on it: calls that read and write it and may throw.
mod Enums
mod Rows
mod Actions
pub mod Effects
pub use Enums.*
pub use Rows.*
unfoldable pub use Actions.*
