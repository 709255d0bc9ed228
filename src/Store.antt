-- ===== src/Store.antt =====
-- storage.py: the rows of the tables that the platform reads and writes, and the database that
-- holds them. A transaction that ends in an exception leaves the database as it was.
mod Rows
mod Tables
unfoldable pub use Rows.*
unfoldable pub use Tables.*
