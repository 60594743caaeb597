-- ===== src/Conn/Session/Lifecycle.antt =====
-- The life of a connection's transaction.
use toasty_driver_surreal.Prelude.{
  ◌<>◌, ℕ, String, Bool, true, false, not, List, [], ◌∷◌, Option, none, some, ◌≡◌, refl, sym,
}
use toasty_driver_surreal.Error.{Error, Result, ok, err, read_only_transaction}
use toasty_driver_surreal.Conn.Sdk.{Answer, done, failed, Sdk}
use toasty_driver_surreal.Conn.Session.{
  Connection, TransactionMode, Transaction, new, ensure_writable, exec_transaction, begun,
}

-- Outside a transaction, or in one that is read-only or not.
pub data Phase : Type 0 where
  idle : Phase
  active : Bool → Phase

abbrev pub is_ok {ℓ} : {A : Type ℓ} → Result A → Bool
is_ok (ok a) = true
is_ok (err e) = false

abbrev phase_of : {T : Type 0} → Option T → Bool → Phase
phase_of none read_only = idle
phase_of (some t) read_only = active read_only

abbrev pub phase : {S T : Type 0} → Connection S T → Phase
phase conn = phase_of conn.transaction conn.read_only

-- The transaction operations that reach the server.
abbrev pub accepted : Transaction → Phase → Bool
accepted (Transaction.start none read_only TransactionMode.default) idle = true
accepted Transaction.commit (active read_only) = true
accepted Transaction.rollback (active read_only) = true
accepted _ _ = false

-- The next phase, given whether the operation succeeded: a start may fail, an end always ends.
abbrev pub next_phase : Transaction → Phase → Bool → Phase
next_phase (Transaction.start none read_only TransactionMode.default) idle true = active read_only
next_phase Transaction.commit p success = idle
next_phase Transaction.rollback p success = idle
next_phase _ p success = p

abbrev pub in_read_only : Phase → Bool
in_read_only idle = false
in_read_only (active read_only) = read_only

-- a read-only connection has a transaction
abbrev pub IsWellFormed : {S T : Type 0} → Connection S T → Type 0
IsWellFormed conn = conn.read_only ≡ in_read_only (phase conn)

module _ {S T R : Type 0} (sdk : Sdk S T R) (debug_mode : TransactionMode → String) where
  -- a connection with its fields written out
  abbrev pub with_fields : S → Option T → Bool → Connection S T
  with_fields server transaction read_only = record {
    server = server;
    transaction = transaction;
    read_only = read_only;
  }

  abbrev Follows : Transaction → Phase → Result ℕ × Connection S T → Type 0
  Follows op p (result, conn) = phase conn ≡ next_phase op p (is_ok result)

  begun-Follows :
      (server : S) (read_only old : Bool) (a : Answer T × S)
      → Follows
          (Transaction.start none read_only TransactionMode.default)
          idle
          (begun sdk (with_fields server none old) read_only a)
  unfolding begun
  begun-Follows server read_only old (done t, s) = refl
  begun-Follows server read_only old (failed f, s) = refl

  -- Every transaction operation takes the connection from its phase to the next one of the
  -- abstract machine: only an accepted start that the server answers opens a transaction, with the
  -- mode that was asked for, and a commit or a rollback leaves the connection idle even when the
  -- server answers with an error.
  pub exec_transaction-next_phase :
      (conn : Connection S T) (op : Transaction)
      → phase (exec_transaction sdk debug_mode conn op).1
        ≡ next_phase op (phase conn) (is_ok (exec_transaction sdk debug_mode conn op).0)
  unfolding exec_transaction
  exec_transaction-next_phase conn op = follows conn.server conn.transaction conn.read_only op
    where
      follows :
          (server : S) (t : Option T) (read_only : Bool) (op : Transaction)
          → Follows op
              (phase_of t read_only)
              (exec_transaction sdk debug_mode (with_fields server t read_only) op)
      follows server t ro (Transaction.start (some i) r m) = refl
      follows server t ro (Transaction.start none r (TransactionMode.other n)) = refl
      follows server (some t) ro (Transaction.start none r TransactionMode.default) = refl
      follows server none ro (Transaction.start none r TransactionMode.default) =
          begun-Follows server r ro (sdk.begin server)
      follows server none ro Transaction.commit = refl
      follows server (some t) ro Transaction.commit = refl
      follows server none ro Transaction.rollback = refl
      follows server (some t) ro Transaction.rollback = refl
      follows server t ro (Transaction.savepoint n) = refl
      follows server t ro (Transaction.release_savepoint n) = refl
      follows server t ro (Transaction.rollback_to_savepoint n) = refl

  -- refused with an error, and nothing has happened
  abbrev Refused : Connection S T → Transaction → Type 0
  Refused conn op = (e : Error) × (exec_transaction sdk debug_mode conn op ≡ (err e, conn))

  -- An operation that the phase does not accept is an error, and neither the connection nor the
  -- server has changed: a second start, an end without a start, an isolation level, another mode
  -- and every savepoint operation.
  pub exec_transaction-refused :
      (conn : Connection S T) (op : Transaction)
      → accepted op (phase conn) ≡ false
      → (e : Error) × (exec_transaction sdk debug_mode conn op ≡ (err e, conn))
  unfolding exec_transaction
  exec_transaction-refused conn op = refused conn.server conn.transaction conn.read_only op
    where
      refused :
          (server : S) (t : Option T) (ro : Bool) (op : Transaction)
          → accepted op (phase_of t ro) ≡ false
          → Refused (with_fields server t ro) op
      refused server t ro (Transaction.start (some i) r m) h = (_, refl)
      refused server t ro (Transaction.start none r (TransactionMode.other n)) h = (_, refl)
      refused server (some t) ro (Transaction.start none r TransactionMode.default) h = (_, refl)
      refused server none ro (Transaction.start none r TransactionMode.default) h = cc
      refused server none ro Transaction.commit h = (_, refl)
      refused server (some t) ro Transaction.commit h = cc
      refused server none ro Transaction.rollback h = (_, refl)
      refused server (some t) ro Transaction.rollback h = cc
      refused server t ro (Transaction.savepoint n) h = (_, refl)
      refused server t ro (Transaction.release_savepoint n) h = (_, refl)
      refused server t ro (Transaction.rollback_to_savepoint n) h = (_, refl)

  -- a sequence of transaction operations, whatever they answer
  unfoldable pub run : Connection S T → List Transaction → Connection S T
  unfolding exec_transaction
  run conn [] = conn
  run conn (op ∷ ops) = run (exec_transaction sdk debug_mode conn op).1 ops

  begun-IsWellFormed :
      (server : S) (r : Bool) (a : Answer T × S)
      → IsWellFormed (begun sdk (with_fields server none false) r a).1
  unfolding begun
  begun-IsWellFormed server r (done t, s) = refl
  begun-IsWellFormed server r (failed f, s) = refl

  pub exec_transaction-IsWellFormed :
      (server : S) (t : Option T) (ro : Bool) (op : Transaction)
      → IsWellFormed (with_fields server t ro)
      → IsWellFormed (exec_transaction sdk debug_mode (with_fields server t ro) op).1
  unfolding exec_transaction
  exec_transaction-IsWellFormed server t ro (Transaction.start (some i) r m) h = h
  exec_transaction-IsWellFormed server t ro (Transaction.start none r (TransactionMode.other n)) h =
      h
  exec_transaction-IsWellFormed server (some t) ro
        (Transaction.start none r TransactionMode.default) h =
      h
  exec_transaction-IsWellFormed server none ro (Transaction.start none r TransactionMode.default)
        h =
      rw h (begun-IsWellFormed server r (sdk.begin server))
  exec_transaction-IsWellFormed server none ro Transaction.commit h = h
  exec_transaction-IsWellFormed server (some t) ro Transaction.commit h = refl
  exec_transaction-IsWellFormed server none ro Transaction.rollback h = h
  exec_transaction-IsWellFormed server (some t) ro Transaction.rollback h = refl
  exec_transaction-IsWellFormed server t ro (Transaction.savepoint n) h = h
  exec_transaction-IsWellFormed server t ro (Transaction.release_savepoint n) h = h
  exec_transaction-IsWellFormed server t ro (Transaction.rollback_to_savepoint n) h = h

  run-IsWellFormed :
      (ops : List Transaction) (conn : Connection S T)
      → IsWellFormed conn
      → IsWellFormed (run conn ops)
  unfolding run
  run-IsWellFormed [] conn h = h
  run-IsWellFormed (op ∷ ops) conn h =
      run-IsWellFormed ops _
        (exec_transaction-IsWellFormed conn.server conn.transaction conn.read_only op h)

  writable_when :
      (conn : Connection S T) (name : String)
      → IsWellFormed conn
      → is_ok (ensure_writable sdk conn name) ≡ not (in_read_only (phase conn))
  unfolding ensure_writable
  writable_when conn name h = rw (sym h) (decided conn.read_only)
    where
      decided :
          (b : Bool)
          → is_ok {A = Unit {0}} (elim b [
            | true ↦
                err (read_only_transaction (name <> " is not allowed in a read-only transaction"))
            | false ↦ ok tt
          ])
            ≡ not b
      decided true = refl
      decided false = refl

  -- On a connection that has been opened and has run any transaction operations, with whatever the
  -- server answered, a write is let through exactly when the connection is not in a read-only
  -- transaction.
  pub ensure_writable-run :
      (server : S) (ops : List Transaction) (name : String)
      → is_ok (ensure_writable sdk (run (new sdk server) ops) name)
        ≡ not (in_read_only (phase (run (new sdk server) ops)))
  unfolding new
  ensure_writable-run server ops name =
      writable_when _ name (run-IsWellFormed ops (new sdk server) refl)
