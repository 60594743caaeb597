-- ===== src/Conn.antt =====
-- src/conn.rs: the connection's transaction, its queries, its operations, and the migrations.
pub mod Sdk
pub mod Failures
pub mod Session
pub mod Migrations
pub mod Exec
