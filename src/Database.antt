-- ===== src/Database.antt =====
-- database/models.go, database/database.go and database/sqlitedb/sqlitedb.go: the records, the
-- statements of a transaction, and the managed transactions `View` and `Update`.
pub mod Models
pub mod Tables
pub mod Tx
pub mod Laws
pub mod Reads
pub mod Beside
