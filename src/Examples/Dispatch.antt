-- ===== src/Examples/Dispatch.antt =====
-- The theorems on the dispatch of operations at concrete inputs.
use toasty_driver_surreal.Prelude.{List, String, true, false, [], ◌∷◌, none, ◌≡◌, refl}
use toasty_driver_surreal.Error.{err, read_only_transaction}
use toasty_driver_surreal.Conn.Session.{Transaction, TransactionMode, new}
use toasty_driver_surreal.Conn.Session.Lifecycle.{Phase, phase, is_ok}
use toasty_driver_surreal.Conn.Exec.{Statement, Operation, Crates, exec}
use toasty_driver_surreal.Conn.Exec.Dispatch.{next, exec-next, exec-read_only}
use toasty_driver_surreal.Conn.Exec.Started.{
  exec_all, exec_all-IsStartedReadOnly, IsStartedReadOnly,
}
use toasty_driver_surreal.Op.Write.{Source}
use toasty_driver_surreal.Op.Insert.{Insert}
use toasty_driver_surreal.Op.Upsert.Conflicts.{message}
use toasty_driver_surreal.Examples.Samples.{codec, context, catalog, lookup, users, user_id}
use toasty_driver_surreal.Examples.Server.{sdk, opened, reading}

abbrev crates : Crates
crates = record {
  codec = codec;
  catalog = catalog;
  context = λ table. context;
  lookup = lookup;
  debug_mode = λ mode. "mode";
  debug_assignment = λ assignment. "assignment";
  display = message;
}

abbrev start : Operation
start = Operation.transaction (Transaction.start none true TransactionMode.default)

abbrev no_rows : Insert
no_rows = record {
  table = users;
  columns = user_id ∷ [];
  source = Source.values [];
  returning = none;
}

abbrev insertion : Operation
insertion = Operation.query_sql (Statement.insert no_rows) false

exec-next_example :
    phase (exec crates sdk opened start).1
    ≡ next start (phase opened) (is_ok (exec crates sdk opened start).0)
exec-next_example = exec-next crates sdk opened start

abbrev some_operations : List Operation
some_operations = start ∷ insertion ∷ Operation.raw_sql ∷ []

still_read_only : (exec_all crates sdk (new sdk []) some_operations).read_only ≡ true
unfolding exec_all new
still_read_only = refl

exec_all-IsStartedReadOnly_example :
    (phase (exec_all crates sdk (new sdk []) some_operations) ≡ Phase.active true)
    × IsStartedReadOnly crates sdk (new sdk []) some_operations
exec_all-IsStartedReadOnly_example =
    exec_all-IsStartedReadOnly crates sdk [] some_operations still_read_only

exec-read_only_example :
    (text : String) × (exec crates sdk reading insertion
      ≡ (err (read_only_transaction text), reading))
exec-read_only_example = exec-read_only crates sdk reading insertion refl refl
