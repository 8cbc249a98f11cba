-- ===== src/Store.antt =====
-- The database of prisma/schema.prisma: the rows of its tables, with the columns that the modelled
-- services read or write. An identifier (`@db.Uuid`) is a number, which is compared for equality
-- only; a time is a number of milliseconds; a nullable column is an `Option`.
mod Status
mod Checks
mod Rows
mod Tables
pub mod Avoids
pub mod Keys
pub mod Runs
pub mod Loops
pub mod Held
unfoldable pub use Status.*
unfoldable pub use Checks.*
unfoldable pub use Rows.*
unfoldable pub use Tables.*
