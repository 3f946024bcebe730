-- ===== src/Postgres.antt =====
-- internal/infrastructure/postgres: the transactor and the repositories. An SQL statement of a
-- repository is the list operation that it denotes on the rows of its table.
pub mod Transact
pub mod Rows
pub mod Sessions
pub mod Tokens
pub mod Users
pub mod Audit
pub mod Keeps
pub mod Writes
