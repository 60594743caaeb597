-- ===== src/Conn/Exec.antt =====
-- src/conn.rs: `exec`, which hands an operation to its translation. The arm for operations of
-- later versions of toasty-core is unreachable and left out.
pub mod Dispatch
pub mod Started
use toasty_driver_surreal.Prelude.{ℕ, String, ◌<>◌, Bool, Option}
use toasty_driver_surreal.Error.{
  Error, Result, ok, err, unsupported_feature, invalid_statement, ◌>>=◌,
}
use toasty_driver_surreal.Schema.{Table, Catalog}
use toasty_driver_surreal.Value.{SurValue, Object}
use toasty_driver_surreal.Value.Codec.{Codec}
use toasty_driver_surreal.Expr.{ExprContext}
use toasty_driver_surreal.Conn.Sdk.{Sdk}
use toasty_driver_surreal.Conn.Session.{
  Connection, attempt, TransactionMode, Transaction, ensure_writable, exec_transaction,
}
use toasty_driver_surreal.Op.{ExecResponse}
use toasty_driver_surreal.Op.Write.Assign.{Assignment}
use toasty_driver_surreal.Op.GetByKey.{GetByKey, exec_get_by_key}
use toasty_driver_surreal.Op.QueryPk.{QueryPk, exec_query_pk}
use toasty_driver_surreal.Op.FindPkByIndex.{FindPkByIndex, exec_find_pk_by_index}
use toasty_driver_surreal.Op.Scan.{Scan, exec_scan}
use toasty_driver_surreal.Op.Insert.{Insert, exec_insert}
use toasty_driver_surreal.Op.UpdateByKey.{UpdateByKey, exec_update_by_key}
use toasty_driver_surreal.Op.DeleteByKey.{DeleteByKey, exec_delete_by_key}
use toasty_driver_surreal.Op.Upsert.{Upsert, exec_upsert}

-- `stmt::Statement`: an insert, or another one with its name
pub data Statement : Type 0 where
  insert : Insert → Statement
  other : String → Statement

-- The operations that carry a statement carry whether returned types are asked for.
pub data Operation : Type 0 where
  query_sql : Statement → Bool → Operation
  insert : Statement → Bool → Operation
  get_by_key : GetByKey → Operation
  query_pk : QueryPk → Operation
  find_pk_by_index : FindPkByIndex → Operation
  scan : Scan → Operation
  update_by_key : UpdateByKey → Operation
  delete_by_key : DeleteByKey → Operation
  upsert : Upsert → Operation
  raw_sql : Operation
  transaction : Transaction → Operation

-- What the operations use of the other crates, apart from the server.
pub record Crates : Type 0 where
  pub codec : Codec
  pub catalog : Catalog
  -- `ExprContext::new_with_target`
  pub context : Table → ExprContext
  -- `Object::get`
  pub lookup : Object → String → Option SurValue
  pub debug_mode : TransactionMode → String
  pub debug_assignment : Assignment → String
  -- `Display` of `toasty_core::Error`
  pub display : Error → String

module _ (crates : Crates) {S T R : Type 0} (sdk : Sdk S T R) where
  abbrev pub Outcome : Type 0
  Outcome = Result ExecResponse × Connection S T

  -- `self.ensure_writable(name)?` before the rest
  unfoldable pub when_writable : Connection S T → String → Outcome → Outcome
  unfolding ensure_writable
  when_writable conn name rest = attempt conn (ensure_writable sdk conn name) (λ _. rest)

  exec_query_sql : Connection S T → Statement → Bool → Outcome
  unfolding when_writable exec_insert
  exec_query_sql conn (Statement.insert stmt) ret =
      when_writable conn "Insert" (exec_insert crates.codec crates.lookup sdk conn stmt ret)
  exec_query_sql conn (Statement.other name) ret = (
    err (
        unsupported_feature
          ("SurrealDB driver only accepts insert statements via QuerySql, got: " <> name)),
    conn,
  )

  exec_insert_statement : Connection S T → Statement → Bool → Outcome
  unfolding exec_insert
  exec_insert_statement conn (Statement.insert stmt) ret =
      exec_insert crates.codec crates.lookup sdk conn stmt ret
  exec_insert_statement conn (Statement.other name) ret =
      (err (invalid_statement "Insert operation did not carry an insert statement"), conn)

  counted : Result ℕ × Connection S T → Outcome
  counted (result, conn) = (result >>= λ n. ok (ExecResponse.count n), conn)

  unfoldable pub exec : Connection S T → Operation → Outcome
  unfolding exec_query_sql when_writable exec_insert_statement counted exec_get_by_key exec_query_pk
      exec_find_pk_by_index exec_scan exec_update_by_key exec_delete_by_key exec_upsert
      exec_transaction
  exec conn (Operation.query_sql stmt ret) = exec_query_sql conn stmt ret
  exec conn (Operation.insert stmt ret) =
      when_writable conn "Insert" (exec_insert_statement conn stmt ret)
  exec conn (Operation.get_by_key op) = exec_get_by_key crates.codec crates.lookup sdk conn op
  exec conn (Operation.query_pk op) =
      exec_query_pk crates.codec (crates.context op.table) crates.catalog crates.lookup sdk conn op
  exec conn (Operation.find_pk_by_index op) =
      exec_find_pk_by_index crates.codec (crates.context op.table) crates.catalog crates.lookup sdk
        conn op
  exec conn (Operation.scan op) =
      exec_scan crates.codec (crates.context op.table) crates.catalog crates.lookup sdk conn op
  exec conn (Operation.update_by_key op) = when_writable conn "UpdateByKey" (
      exec_update_by_key crates.codec crates.debug_assignment crates.catalog
        (crates.context op.table) crates.lookup sdk conn op)
  exec conn (Operation.delete_by_key op) =
      when_writable conn "DeleteByKey"
        (exec_delete_by_key crates.codec (crates.context op.table) sdk conn op)
  exec conn (Operation.upsert op) = when_writable conn "Upsert" (
      exec_upsert crates.codec crates.debug_assignment crates.catalog crates.lookup sdk
        crates.display conn op)
  exec conn Operation.raw_sql =
      (err (unsupported_feature "SurrealDB driver does not support raw SQL"), conn)
  exec conn (Operation.transaction op) = counted (exec_transaction sdk crates.debug_mode conn op)
