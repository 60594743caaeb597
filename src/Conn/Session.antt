-- ===== src/Conn/Session.antt =====
-- The connection's state, its transaction operations, and its queries.
pub mod Lifecycle
pub mod Passed
use toasty_driver_surreal.Prelude.{
  ℕ, String, ◌<>◌, Bool, true, false, List, [], ◌∷◌, Option, none, some,
}
use toasty_driver_surreal.Error.{
  Error, Result, ok, err, unsupported_feature, invalid_statement, read_only_transaction, ◌>>=◌,
}
use toasty_driver_surreal.Value.{SurValue, Array, elements}
use toasty_driver_surreal.Expr.{Binds}
use toasty_driver_surreal.Conn.Sdk.{Failure, Answer, done, failed, Sdk}
use toasty_driver_surreal.Conn.Failures.{classify_error, map_err}

-- `Connection`, with the state of the server behind its handle
pub record Connection (S T : Type 0) : Type 0 where
  pub server : S
  pub transaction : Option T
  pub read_only : Bool

pub data TransactionMode : Type 0 where
  default : TransactionMode
  other : ℕ → TransactionMode

pub data Transaction : Type 0 where
  start : Option ℕ → Bool → TransactionMode → Transaction
  commit rollback : Transaction
  savepoint release_savepoint rollback_to_savepoint : String → Transaction

-- the operator `?` in an operation on the connection, which an error leaves as it is
abbrev pub attempt :
    {S T A B : Type 0}
    → Connection S T
    → Result A
    → (A → Result B × Connection S T)
    → Result B × Connection S T
attempt conn (err e) next = (err e, conn)
attempt conn (ok a) next = next a

module _ {S T R : Type 0} (sdk : Sdk S T R) where
  -- `Connection::new`
  unfoldable pub new : S → Connection S T
  new server = record { server = server; transaction = none; read_only = false }

  unfoldable pub ensure_writable : Connection S T → String → Result (Unit {0})
  ensure_writable conn operation = elim conn.read_only [
    | true ↦ err (read_only_transaction (operation <> " is not allowed in a read-only transaction"))
    | false ↦ ok tt
  ]

  unfoldable pub ensure_none : Option T → String → Result (Unit {0})
  ensure_none none operation = ok tt
  ensure_none (some t) operation =
      err (invalid_statement ("cannot " <> operation <> " while a SurrealDB transaction is active"))

  unfoldable pub ensure_no_active_transaction : Connection S T → String → Result (Unit {0})
  unfolding ensure_none
  ensure_no_active_transaction conn operation = ensure_none conn.transaction operation

  -- `self.db.clone().begin()`, which fills the connection's transaction
  unfoldable pub begun : Connection S T → Bool → Answer T × S → Result ℕ × Connection S T
  begun conn read_only (done t, server) =
      (ok 0, record { server = server; transaction = some t; read_only = read_only })
  begun conn read_only (failed failure, server) =
      (err (classify_error failure), record conn { server = server })

  start_transaction : Connection S T → Option T → Bool → Result ℕ × Connection S T
  unfolding begun
  start_transaction conn (some t) read_only =
      (err (invalid_statement "SurrealDB connection already has an active transaction"), conn)
  start_transaction conn none read_only = begun conn read_only (sdk.begin conn.server)

  -- the answer to a commit or a rollback: the transaction has been taken before it is asked
  finished : Answer (Unit {0}) × S → Result ℕ × Connection S T
  finished (answer, server) = (
    map_err classify_error answer >>= λ _. ok 0,
    record { server = server; transaction = none; read_only = false },
  )

  commit_transaction : Connection S T → Option T → Result ℕ × Connection S T
  unfolding finished
  commit_transaction conn none =
      (err (invalid_statement "cannot commit without an active SurrealDB transaction"), conn)
  commit_transaction conn (some t) = finished (sdk.commit t conn.server)

  rollback_transaction : Connection S T → Option T → Result ℕ × Connection S T
  unfolding finished
  rollback_transaction conn none =
      (err (invalid_statement "cannot roll back without an active SurrealDB transaction"), conn)
  rollback_transaction conn (some t) = finished (sdk.cancel t conn.server)

  abbrev no_savepoints : Connection S T → Result ℕ × Connection S T
  no_savepoints conn = (
    err (unsupported_feature "SurrealDB SDK 3.2.4 does not support transaction savepoints"),
    conn,
  )

  module _ (debug_mode : TransactionMode → String) where
    unfoldable pub exec_transaction : Connection S T → Transaction → Result ℕ × Connection S T
    unfolding start_transaction commit_transaction rollback_transaction
    exec_transaction conn (Transaction.start (some isolation) read_only mode) = (
      err (
          unsupported_feature
            "SurrealDB driver does not support explicit transaction isolation levels"),
      conn,
    )
    exec_transaction conn (Transaction.start none read_only (TransactionMode.other n)) = (
      err (
          unsupported_feature (
            "SurrealDB driver does not support TransactionMode::"
            <> debug_mode (TransactionMode.other n))),
      conn,
    )
    exec_transaction conn (Transaction.start none read_only TransactionMode.default) =
        start_transaction conn conn.transaction read_only
    exec_transaction conn Transaction.commit = commit_transaction conn conn.transaction
    exec_transaction conn Transaction.rollback = rollback_transaction conn conn.transaction
    exec_transaction conn (Transaction.savepoint name) = no_savepoints conn
    exec_transaction conn (Transaction.release_savepoint name) = no_savepoints conn
    exec_transaction conn (Transaction.rollback_to_savepoint name) = no_savepoints conn

  -- through the active transaction when there is one
  unfoldable pub response : Option T → String → Binds → S → Answer R × S
  response none sql binds server = sdk.query sql binds server
  response (some t) sql binds server = sdk.query_in t sql binds server

  unfoldable pub checked : (Failure → Error) → Answer R → Result R
  checked classify answer = map_err classify answer >>= λ r. map_err classify (sdk.check r)

  unfoldable pub run_query : Connection S T → String → Binds → Result R × Connection S T
  unfolding response checked
  run_query conn sql binds =
      let (answer, server) = response conn.transaction sql binds conn.server in
      (checked classify_error answer, record conn { server = server })

  -- a statement, and what is made of the response
  unfoldable pub ask :
      {A : Type 0}
      → Connection S T
      → String × Binds
      → (Result R → Result A)
      → Result A × Connection S T
  unfolding run_query
  ask conn (sql, binds) decode =
      let (response, after) = run_query conn sql binds in (decode response, after)

  rows_of : SurValue → List SurValue
  rows_of (SurValue.array arr) = elements arr
  rows_of SurValue.none = []
  rows_of SurValue.null = []
  rows_of value = value ∷ []

  unfoldable pub take_rows : R → ℕ → Result (List SurValue)
  unfolding rows_of
  take_rows r index = map_err classify_error (sdk.take r index) >>= λ value. ok (rows_of value)
