-- ===== src/Table.antt =====
-- The tables of the database as lists of rows in the order of their rowid, and the statements the
-- program runs on them. A row is inserted at the end.
pub mod Rows
pub mod Laws
pub mod Unique
pub use Rows.*
pub use Unique.*
pub use Laws.*
