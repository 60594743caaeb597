-- ===== src/Conn/Migrations.antt =====
-- Migrations on a connection: `define_table`, `push_schema`, `applied_migrations` and
-- `apply_migration` of src/conn.rs. Tracing has no effect on the state and is left out.
pub mod Atomic
pub mod Ledger
pub mod Succeeds
use toasty_driver_surreal.Prelude.{ℕ, String, ◌<>◌, true, false, List, [], ◌∷◌, Option, none, some}
use toasty_driver_surreal.Text.{decimal, is_blank}
use toasty_driver_surreal.Error.{Error, Result, ok, err, serialization_failure, ok_or, ◌>>=◌}
use toasty_driver_surreal.Value.{SurValue, RecordIdKey, Object}
use toasty_driver_surreal.Schema.{Table, Catalog}
use toasty_driver_surreal.Expr.{Binds, escape_ident}
use toasty_driver_surreal.Migration.Statements.{
  tracking_table, tracking_id_alias, define_table_statements,
}
use toasty_driver_surreal.Conn.Sdk.{Failure, Answer, done, failed, Sdk}
use toasty_driver_surreal.Conn.Failures.{classify_error, classify_migration_error, map_err}
use toasty_driver_surreal.Conn.Session.{
  Connection, checked, ensure_no_active_transaction, take_rows,
}

module _ {S T R : Type 0} (sdk : Sdk S T R) (lookup : Object → String → Option SurValue) where
  -- A step on the server: what comes of it, and the server after it.
  abbrev Step : Type 0 → Type 0
  Step A = S → Result A × S

  -- the next step, after a success
  abbrev followed : {A B : Type 0} → Result A × S → (A → Step B) → Result B × S
  followed (ok a, server) next = next a server
  followed (err e, server) next = (err e, server)

  -- `self.db.query(..).await`, checked
  direct : String → Step R
  unfolding checked
  direct sql server =
      let (answer, after) = sdk.query sql [] server in (checked sdk classify_error answer, after)

  -- `transaction.query(..).await`, checked
  inside : T → String → Binds → Step R
  unfolding checked
  inside t sql binds server =
      let (answer, after) = sdk.query_in t sql binds server in
      (checked sdk classify_migration_error answer, after)

  direct_all : List String → Step (Unit {0})
  unfolding direct
  direct_all [] server = (ok tt, server)
  direct_all (statement ∷ rest) server = followed (direct statement server) (λ _. direct_all rest)

  unfoldable pub define_table : Catalog → Table → Step (Unit {0})
  unfolding direct_all define_table_statements
  define_table cat table = direct_all (define_table_statements cat table true)

  unfoldable pub push_schema : Catalog → List Table → Step (Unit {0})
  unfolding define_table
  push_schema cat [] server = (ok tt, server)
  push_schema cat (table ∷ tables) server =
      followed (define_table cat table server) (λ _. push_schema cat tables)

  unfoldable pub ensure_migrations_table : Step (Unit {0})
  unfolding direct
  ensure_migrations_table server =
      followed
        (direct ("DEFINE TABLE IF NOT EXISTS " <> escape_ident tracking_table <> " SCHEMALESS")
          server)
        (λ _ after. (ok tt, after))

  abbrev invalid_migration_tracking_row : Error
  invalid_migration_tracking_row =
      serialization_failure "SurrealDB migration tracking table contains an invalid migration ID"

  tracked_text : Option SurValue → Result ℕ
  tracked_text (some (SurValue.string id)) = ok_or (sdk.parse_u64 id) invalid_migration_tracking_row
  tracked_text _ = err invalid_migration_tracking_row

  tracked_id : SurValue → Result ℕ
  unfolding tracked_text
  tracked_id (SurValue.object row) = tracked_text (lookup row tracking_id_alias)
  tracked_id _ = err invalid_migration_tracking_row

  tracked_ids : List SurValue → Result (List ℕ)
  unfolding tracked_id
  tracked_ids [] = ok []
  tracked_ids (row ∷ rows) = do id ← tracked_id row; ids ← tracked_ids rows; ok (id ∷ ids)

  tracked_rows : R → Result (List ℕ)
  unfolding take_rows tracked_ids
  tracked_rows response = do rows ← take_rows sdk response 0; tracked_ids rows

  -- the steps on the connection's server; the rest of the connection stays
  abbrev on_server : {A : Type 0} → Connection S T → Result A × S → Result A × Connection S T
  on_server conn (result, server) = (result, record conn { server = server })

  -- the checks of an operation that needs the connection idle
  pub when_idle :
      {A : Type 0} → Connection S T → Result (Unit {0}) → Step A → Result A × Connection S T
  when_idle conn (err e) step = (err e, conn)
  when_idle conn (ok _) step = on_server conn (step conn.server)

  unfoldable pub applied_migrations : Connection S T → Result (List ℕ) × Connection S T
  unfolding when_idle ensure_no_active_transaction ensure_migrations_table tracked_rows direct
  applied_migrations conn =
      when_idle conn (ensure_no_active_transaction sdk conn "query applied migrations") (λ server.
        followed (ensure_migrations_table server) (λ _ ready.
          followed
            (direct
              ("SELECT record::id(id) AS "
                <> escape_ident tracking_id_alias
                <> " FROM "
                <> escape_ident tracking_table)
              ready)
            (λ response after. (tracked_rows response, after))))

  -- the statements that are not blank, up to the first that fails
  unfoldable pub apply_statements : T → List String → Step (Unit {0})
  unfolding inside is_blank
  apply_statements t [] server = (ok tt, server)
  apply_statements t (statement ∷ rest) server = elim (is_blank statement) [
    | true ↦ apply_statements t rest server
    | false ↦ followed (inside t statement [] server) (λ _. apply_statements t rest)
  ]

  -- the row that says that the migration has been applied
  track : T → ℕ → String → Step (Unit {0})
  unfolding inside decimal
  track t id name server =
      followed
        (inside t
          "CREATE $migration_record SET name = $migration_name, applied_at = time::now() RETURN NONE"
          ((
            "migration_record",
            SurValue.record_id tracking_table (RecordIdKey.key_string (decimal id)),
          )
            ∷ ("migration_name", SurValue.string name)
            ∷ [])
          server)
        (λ _ after. (ok tt, after))

  -- after an error the transaction is cancelled; an error of that replaces the first
  cancelled : T → Error → S → Result (Unit {0}) × S
  cancelled t e server =
      let (answer, after) = sdk.cancel t server in
      (map_err classify_migration_error answer >>= λ _. err e, after)

  pub conclude : T → Result (Unit {0}) × S → Result (Unit {0}) × S
  unfolding cancelled
  conclude t (err e, server) = cancelled t e server
  conclude t (ok _, server) =
      let (answer, after) = sdk.commit t server in (map_err classify_migration_error answer, after)

  in_transaction : ℕ → String → List String → Answer T × S → Result (Unit {0}) × S
  unfolding conclude apply_statements track
  in_transaction id name statements (failed failure, server) =
      (err (classify_migration_error failure), server)
  in_transaction id name statements (done t, server) =
      conclude t (followed (apply_statements t statements server) (λ _. track t id name))

  unfoldable pub apply_migration :
      Connection S T → ℕ → String → List String → Result (Unit {0}) × Connection S T
  unfolding when_idle ensure_no_active_transaction ensure_migrations_table in_transaction
  apply_migration conn id name statements =
      when_idle conn (ensure_no_active_transaction sdk conn "apply a migration") (λ server.
        followed (ensure_migrations_table server)
          (λ _ ready. in_transaction id name statements (sdk.begin ready)))
