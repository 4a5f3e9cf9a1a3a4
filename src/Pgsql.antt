-- ===== src/Pgsql.antt =====
-- database/pgsql: the datastore over PostgreSQL. A table is a list of rows, and a statement does to it
-- what SQL says.
pub mod Locks
