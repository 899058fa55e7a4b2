-- ===== src/Db.antt =====
-- db/: the tables and the queries.
pub mod Models
pub mod Queries
