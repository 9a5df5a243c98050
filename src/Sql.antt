-- ===== src/Sql.antt =====
-- A table of the SQLite database that lib/db/client.ts opens, as the list of its rows in row order,
-- and the statements that the repositories prepare, with their WHERE clause as a Boolean test.
pub mod Defs
pub mod Laws
pub mod Order
pub mod Single
