-- ===== src/Migration.antt =====
-- src/migration.rs: schema differences to SurrealQL migration statements.
pub mod Diff
pub mod Statements
pub mod Alter
pub mod Generate
