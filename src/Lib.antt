-- ===== src/Lib.antt =====
-- A verification library for toasty-driver-surreal, a SurrealDB driver for the Toasty ORM.
--
-- The driver turns Toasty's operations into SurrealQL. Values cross it through a codec, primary keys
-- become record ids, filters become texts with bound parameters, schema differences become
-- migrations, and a connection runs all of this on a server, in or outside a transaction.
--
-- * Value, Value/Encode, Value/Decode and Value/Numeric are src/value.rs: `to_surreal` and
--   `from_surreal` with their column-aware forms, and `number_to_stmt` with Rust's casts written
--   out as residues. Value/Json is its native JSON codec. Value/RoundTrip, Value/Documents,
--   Value/Untyped, Value/Json/RoundTrip, Value/Json/Errors and Value/Json/Strict hold the proofs.
-- * RecordId is src/record_id.rs, with its proofs in RecordId/Keys.
-- * Expr and Expr/Render are src/expr.rs: the binds, identifiers, references to columns, and
--   `render_with_storage`, which threads the binds through an expression. Expr/Fragment is a
--   description of the same texts with no state; Expr/Fragment/Refines and Expr/Fragment/Numbering
--   relate the two. Expr/Identifiers and Expr/Grouping are about the texts themselves.
-- * Schema and Migration/Diff are the parts of toasty-core's schema and schema difference that the
--   driver reads. Migration/Statements, Migration/Alter and Migration/Generate are
--   src/migration.rs: the statements, `render_alter_table` with its local vectors as a record
--   `Plan`, and `generate` up to the list of statements. The proofs are in the modules below
--   these three; Migration/Alter/Safe describes the changes of a table that need no guard, and
--   Migration/Alter/Fields what the updates of a migration are to do to a row.
-- * Conn/Session and Conn/Migrations are src/conn.rs: the connection is a record of the server's
--   state, the open transaction and the read-only mode, and each operation takes it and returns its
--   result with the next one. Conn/Failures classifies the server's errors. The proofs are in
--   Conn/Session/Lifecycle, Conn/Migrations/Atomic and Conn/Migrations/Ledger.
-- * Conn/Exec is `exec` of src/conn.rs, which hands an operation to its translation, behind the check
--   of a read-only transaction for those that write. Conn/Exec/Dispatch,
--   Conn/Exec/Started and Op/Keeps hold the proofs.
-- * Op is src/op.rs, projections and rows, with their proofs in Op/Rows. The operations have the
--   names of their files in src/op: Op/GetByKey, Op/DeleteByKey, Op/QueryPk, Op/Scan,
--   Op/FindPkByIndex, Op/Insert, Op/UpdateByKey and Op/Upsert. Op/Write is what insert.rs and
--   upsert.rs both hold, Op/Write/Assign and Op/Write/Mutations are the assignments of updates and
--   upserts. The modules below an operation hold its proofs; Op/QueryPk/Follow has
--   besides a client that follows the cursors of the pages, as the engine does. Op/Store describes
--   a server that keeps records, in SurrealQL, and the modules below it follow a row through
--   `exec_insert` and `exec_get_by_key`. Op/Upsert/Meaning and Op/Upsert/Effect describe what an
--   upsert does to a record, and Op/Upsert/Statement ties its statement to that.
--   Op/DeleteByKey/Effect describes a server that deletes records.
-- * Driver is src/lib.rs: the configuration of a driver, and apart from it the slot for the handle
--   that the driver's clones share. Driver/Handle holds the proofs. Driver/Capability is
--   src/capability.rs.
-- * Error is `toasty_core::Error` with `Result`; Text has the text operations of Rust's standard
--   library; Prelude has what all share.
--
-- Code that is not in the repository is a parameter: `Codec` (toasty-core's casts, surrealdb's
-- numbers and objects, serde_json, uuid, rust_decimal and the machine's floats), `ExprContext` and
-- `Catalog` (toasty-core's lookups), `Sdk` (surrealdb's queries and transactions), `Crates`, which
-- collects these with the debug texts, and `World` (surrealdb's handles and the file system). What the
-- proofs rely on is a record of laws: `IsLawful`, `IsLawfulJson`, `IsTransactional`,
-- `IsLedger` of the tracking table, `IsMap` of objects, `IsServed` and `IsFiltered` of a server that
-- answers selects, `IsStore` of one that keeps records, `IsErasing` of one that deletes them, `Runs` of
-- one that runs updates, and `Shows` of the texts of errors. The Examples give these parameters concrete
-- values.
--
-- All recursion is structural. `decimal` has fuel, one more than the number, which has at most as
-- many digits. The client that follows the cursors has fuel too, a page each: one page more than there
-- are rows is enough, since a page with a cursor leaves fewer rows behind it.
--
-- Not modelled: the arms for variants that toasty-core does not have today; the async runtime,
-- tracing, the examples and the tests, but for the unit tests of src/migration.rs, which
-- Examples/Schemas runs on the model. The features of the crate are taken to be on, and page sizes
-- and offsets to be natural numbers. Where a match on an enum of toasty-core or of surrealdb has a
-- catch-all arm, the variants that fall into it are one constructor `other`.
pub mod Prelude
pub mod Text
pub mod Error
pub mod Value
pub mod Schema
pub mod RecordId
pub mod Expr
pub mod Migration
pub mod Conn
pub mod Driver
pub mod Op
mod Examples
