-- ===== src/Conn/Exec/Dispatch.antt =====
-- What an operation does to the connection's transaction, and what a read-only one refuses.
use toasty_driver_surreal.Prelude.{
  ℕ, ap, String, ◌<>◌, none, some, Bool, true, false, Option, ◌≡◌, refl, sym, ◌∙◌,
}
use toasty_driver_surreal.Error.{Result, ok, err, read_only_transaction}
use toasty_driver_surreal.Conn.Sdk.{Sdk}
use toasty_driver_surreal.Conn.Session.{Connection, ensure_writable, exec_transaction}
use toasty_driver_surreal.Conn.Session.Lifecycle.{
  Phase, phase, next_phase, is_ok, exec_transaction-next_phase,
}
use toasty_driver_surreal.Op.Keeps.{
  Keeps, same, attempt-Keeps, exec_get_by_key-Keeps, exec_query_pk-Keeps,
  exec_find_pk_by_index-Keeps, exec_scan-Keeps, exec_insert-Keeps, exec_update_by_key-Keeps,
  exec_delete_by_key-Keeps, exec_upsert-Keeps,
}
use toasty_driver_surreal.Conn.Exec.{
  Statement, Operation, Crates, Outcome, exec, when_writable, exec_query_sql, exec_insert_statement,
  counted,
}

-- The next phase of the connection: only a transaction operation changes it.
abbrev pub next : Operation → Phase → Bool → Phase
next (Operation.transaction op) p success = next_phase op p success
next _ p success = p

abbrev is_transaction : Operation → Bool
is_transaction (Operation.transaction op) = true
is_transaction _ = false

-- The operations that write.
abbrev pub writes : Operation → Bool
writes (Operation.query_sql (Statement.insert insert) ret) = true
writes (Operation.insert stmt ret) = true
writes (Operation.update_by_key op) = true
writes (Operation.delete_by_key op) = true
writes (Operation.upsert op) = true
writes _ = false

module _ (crates : Crates) {S T R : Type 0} (sdk : Sdk S T R) where
  when_writable-Keeps :
      (conn : Connection S T) (name : String) (rest : Outcome crates sdk)
      → Keeps conn rest.1
      → Keeps conn (when_writable crates sdk conn name rest).1
  unfolding when_writable
  when_writable-Keeps conn name rest k =
      attempt-Keeps conn (ensure_writable sdk conn name) (λ _. rest) (λ _. k)

  exec_insert_statement-Keeps :
      (conn : Connection S T) (stmt : Statement) (ret : Bool)
      → Keeps conn (exec_insert_statement crates sdk conn stmt ret).1
  unfolding exec_insert_statement
  exec_insert_statement-Keeps conn (Statement.insert stmt) ret =
      exec_insert-Keeps crates.codec crates.lookup sdk conn stmt ret
  exec_insert_statement-Keeps conn (Statement.other name) ret = same conn

  exec_query_sql-Keeps :
      (conn : Connection S T) (stmt : Statement) (ret : Bool)
      → Keeps conn (exec_query_sql crates sdk conn stmt ret).1
  unfolding exec_query_sql
  exec_query_sql-Keeps conn (Statement.insert stmt) ret =
      when_writable-Keeps conn "Insert" _
        (exec_insert-Keeps crates.codec crates.lookup sdk conn stmt ret)
  exec_query_sql-Keeps conn (Statement.other name) ret = same conn

  Keeps-phase : (conn after : Connection S T) → Keeps conn after → phase after ≡ phase conn
  Keeps-phase conn after (t, r) = rw (t, r) refl

  pub exec-Keeps :
      (conn : Connection S T) (op : Operation)
      → is_transaction op ≡ false
      → Keeps conn (exec crates sdk conn op).1
  unfolding exec
  exec-Keeps conn (Operation.query_sql stmt ret) h = exec_query_sql-Keeps conn stmt ret
  exec-Keeps conn (Operation.insert stmt ret) h =
      when_writable-Keeps conn "Insert" _ (exec_insert_statement-Keeps conn stmt ret)
  exec-Keeps conn (Operation.get_by_key op) h =
      exec_get_by_key-Keeps crates.codec crates.lookup sdk conn op
  exec-Keeps conn (Operation.query_pk op) h =
      exec_query_pk-Keeps crates.codec crates.lookup sdk crates.catalog (crates.context op.table)
        conn op
  exec-Keeps conn (Operation.find_pk_by_index op) h =
      exec_find_pk_by_index-Keeps crates.codec crates.lookup sdk crates.catalog
        (crates.context op.table) conn op
  exec-Keeps conn (Operation.scan op) h =
      exec_scan-Keeps crates.codec crates.lookup sdk crates.catalog (crates.context op.table) conn
        op
  exec-Keeps conn (Operation.update_by_key op) h = when_writable-Keeps conn "UpdateByKey" _ (
      exec_update_by_key-Keeps crates.codec crates.lookup sdk crates.catalog crates.debug_assignment
        (crates.context op.table) conn op)
  exec-Keeps conn (Operation.delete_by_key op) h = when_writable-Keeps conn "DeleteByKey" _ (
      exec_delete_by_key-Keeps crates.codec crates.lookup sdk crates.catalog
        (crates.context op.table) conn op)
  exec-Keeps conn (Operation.upsert op) h = when_writable-Keeps conn "Upsert" _ (
      exec_upsert-Keeps crates.codec crates.lookup sdk crates.catalog crates.debug_assignment
        crates.display conn op)
  exec-Keeps conn Operation.raw_sql h = same conn
  exec-Keeps conn (Operation.transaction op) h = cc

  is_ok-counted : (r : Result ℕ × Connection S T) → is_ok (counted crates sdk r).0 ≡ is_ok r.0
  unfolding counted
  is_ok-counted (ok n, conn) = refl
  is_ok-counted (err e, conn) = refl

  -- Every operation takes the connection from its phase to the next one of the abstract machine,
  -- whatever it and the server answer: reads and writes keep the transaction and its mode, and a
  -- transaction operation does what the machine of transactions does.
  pub exec-next :
      (conn : Connection S T) (op : Operation)
      → phase (exec crates sdk conn op).1 ≡ next op (phase conn) (is_ok (exec crates sdk conn op).0)
  unfolding exec counted
  exec-next conn (Operation.transaction op) =
      exec_transaction-next_phase sdk crates.debug_mode conn op
      ∙ ap (next_phase op (phase conn))
          (sym (is_ok-counted (exec_transaction sdk crates.debug_mode conn op)))
  exec-next conn op = Keeps-phase conn (exec crates sdk conn op).1 (exec-Keeps conn op refl)

  read_only_of :
      (server : S) (t : Option T) (ro : Bool)
      → phase (record { server = server; transaction = t; read_only = ro }) ≡ Phase.active true
      → ro ≡ true
  read_only_of server none ro p = cc
  read_only_of server (some t) ro p = cc

  abbrev Refusal : Outcome crates sdk → Connection S T → Type 0
  Refusal outcome conn =
      (message : String) × (outcome ≡ (err (read_only_transaction message), conn))

  refused :
      (conn : Connection S T) (name : String) (rest : Outcome crates sdk)
      → phase conn ≡ Phase.active true
      → Refusal (when_writable crates sdk conn name rest) conn
  unfolding when_writable ensure_writable
  refused conn name rest p =
      let h : conn.read_only ≡ true = read_only_of conn.server conn.transaction conn.read_only p in
      (name <> " is not allowed in a read-only transaction", rw h refl)

  -- In a read-only transaction an operation that writes is refused: it is an error that says so,
  -- and neither the connection nor the server has changed, whatever the operation holds.
  pub exec-read_only :
      (conn : Connection S T) (op : Operation)
      → phase conn ≡ Phase.active true
      → writes op ≡ true
      → (message : String) × (exec crates sdk conn op ≡ (err (read_only_transaction message), conn))
  unfolding exec exec_query_sql
  exec-read_only conn (Operation.query_sql (Statement.insert i) ret) p w = refused conn "Insert" _ p
  exec-read_only conn (Operation.query_sql (Statement.other name) ret) p w = cc
  exec-read_only conn (Operation.insert stmt ret) p w = refused conn "Insert" _ p
  exec-read_only conn (Operation.get_by_key op) p w = cc
  exec-read_only conn (Operation.query_pk op) p w = cc
  exec-read_only conn (Operation.find_pk_by_index op) p w = cc
  exec-read_only conn (Operation.scan op) p w = cc
  exec-read_only conn (Operation.update_by_key op) p w = refused conn "UpdateByKey" _ p
  exec-read_only conn (Operation.delete_by_key op) p w = refused conn "DeleteByKey" _ p
  exec-read_only conn (Operation.upsert op) p w = refused conn "Upsert" _ p
  exec-read_only conn Operation.raw_sql p w = cc
  exec-read_only conn (Operation.transaction op) p w = cc
