-- ===== src/Postgres.antt =====
-- src/stores/postgres.ts: `PostgresStore`. Postgres and its client are parameters; the statements are
-- the code's.
pub mod Jsonb
pub mod Columns
pub mod Sql
pub mod Operations
pub mod Kept
pub mod Key
pub mod Lock
pub mod Locking
pub mod Rows
pub mod Writes
pub mod Refusals
pub mod Creation
pub mod Session
pub mod Safety
pub mod Privacy
pub mod Laws
pub mod Passes
