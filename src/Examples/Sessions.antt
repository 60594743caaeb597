-- ===== src/Examples/Sessions.antt =====
-- The theorems on connections at concrete inputs: a server that keeps the statements it has
-- committed, and behind them those of the open transaction.
use toasty_driver_surreal.Prelude.{
  ℕ, String, true, false, List, [], ◌∷◌, ◌++◌, none, some, ◌≡◌, refl, str_eq, if◌then◌else◌,
}
use toasty_driver_surreal.Error.{Error, err, serialization_failure}
use toasty_driver_surreal.Value.{SurValue}
use toasty_driver_surreal.Expr.{escape_ident}
use toasty_driver_surreal.Conn.Failures.{classify_migration_error}
use toasty_driver_surreal.Conn.Sdk.{Failure, Answer, done, failed, Sdk}
use toasty_driver_surreal.Conn.Session.{Connection, TransactionMode, Transaction, exec_transaction}
use toasty_driver_surreal.Conn.Session.Lifecycle.{
  phase, next_phase, is_ok, exec_transaction-next_phase, exec_transaction-refused,
}
use toasty_driver_surreal.Conn.Migrations.{apply_migration}
use toasty_driver_surreal.Conn.Migrations.Atomic.{
  IsTransactional, Untouched, apply_migration-atomic,
}
use toasty_driver_surreal.Examples.Samples.{lookup}

record Server : Type 0 where
  committed : List String
  pending : List String

abbrev broken : Failure
broken = record { message = "Transaction conflict: retry"; conflicts = false ∷ true ∷ [] }

-- a statement that fails
abbrev answer : String → Answer ℕ
answer sql = if str_eq sql "BROKEN" then failed broken else done 0

abbrev sdk : Sdk Server ℕ ℕ
sdk = record {
  query = λ sql binds s. (answer sql, record s { committed = s.committed ++ sql ∷ [] });
  query_in = λ t sql binds s. (answer sql, record s { pending = s.pending ++ sql ∷ [] });
  begin = λ s. (done 1, record s { pending = [] });
  commit = λ t s. (done tt, record { committed = s.committed ++ s.pending; pending = [] });
  cancel = λ t s. (done tt, record s { pending = [] });
  check = λ r. done r;
  take = λ r index. done SurValue.none;
  parse_u64 = λ s. none;
}

abbrev committed : Server → List String
committed s = s.committed

sdk-IsTransactional : IsTransactional sdk committed
sdk-IsTransactional = record {
  begin_keeps = λ s. refl;
  query_in_keeps = λ t sql binds s. refl;
  cancel_keeps = λ t s. refl;
  failed_commit_keeps = λ t s f h. cc;
}

abbrev empty_server : Server
empty_server = record { committed = []; pending = [] }

abbrev opened : Connection Server ℕ
opened = record { server = empty_server; transaction = none; read_only = false }

abbrev reading : Connection Server ℕ
reading = record { server = empty_server; transaction = some 1; read_only = true }

abbrev mode_text : TransactionMode → String
mode_text mode = "mode"

abbrev start_reading : Transaction
start_reading = Transaction.start none true TransactionMode.default

exec_transaction-next_phase_example :
    phase (exec_transaction sdk mode_text opened start_reading).1
    ≡ next_phase start_reading
        (phase opened)
        (is_ok (exec_transaction sdk mode_text opened start_reading).0)
exec_transaction-next_phase_example = exec_transaction-next_phase sdk mode_text opened start_reading

exec_transaction-refused_example :
    (e : Error) × (exec_transaction sdk mode_text reading start_reading ≡ (err e, reading))
exec_transaction-refused_example = exec_transaction-refused sdk mode_text reading start_reading refl

abbrev conflicted : Error
conflicted = serialization_failure "SurrealDB migration transaction conflicted"

abbrev statements : List String
statements = "DEFINE TABLE `t`" ∷ " " ∷ "BROKEN" ∷ "REMOVE TABLE `t`" ∷ []

migration_fails : (apply_migration sdk lookup opened 7 "seventh" statements).0 ≡ err conflicted
unfolding apply_migration escape_ident classify_migration_error
migration_fails = refl

apply_migration-atomic_example :
    Untouched sdk lookup committed sdk-IsTransactional empty_server
      (apply_migration sdk lookup opened 7 "seventh" statements).1.server
    × ((apply_migration sdk lookup opened 7 "seventh" statements).1.transaction ≡ none)
    × ((apply_migration sdk lookup opened 7 "seventh" statements).1.read_only ≡ false)
apply_migration-atomic_example =
    apply_migration-atomic sdk lookup committed sdk-IsTransactional opened 7 "seventh" statements
      conflicted migration_fails
