-- ===== src/Worker/Store.antt =====
-- The tables of infra/postgres/migrations that the worker reads and writes, and the world in which
-- its calls run. Times are milliseconds.
pub mod Tables
pub mod Task
pub mod Transaction
pub mod Keeps
pub mod Post
pub mod Frame
pub mod Inversion
