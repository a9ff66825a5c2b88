-- ===== src/Store.antt =====
-- monitor/store.go: the agent's SQLite database. The tables are lists in the order of their integer
-- primary keys; a statement that SQLite may refuse takes its place in a sequence of faults.
pub mod Tables
pub mod Headers
pub mod Delta
pub mod Import
pub mod Buffer
pub mod Query
pub mod Mirror
pub mod Valid
