-- ===== src/Op/Insert.antt =====
-- src/op/insert.rs.
pub mod Stored
pub mod Content
pub mod Tally
use toasty_driver_surreal.Prelude.{
  ℕ, suc, String, Bool, List, [], ◌∷◌, ◌++◌, ◌||◌, Option, none, some, is_some, if◌then◌else◌,
}
use toasty_driver_surreal.Error.{Result, ok, err, invalid_statement, ◌>>=◌}
use toasty_driver_surreal.Schema.{Column, Table}
use toasty_driver_surreal.Value.{Value, SurValue, Object}
use toasty_driver_surreal.Value.Codec.{Codec}
use toasty_driver_surreal.RecordId.{record_id, to_value}
use toasty_driver_surreal.Expr.{Binds}
use toasty_driver_surreal.Conn.Sdk.{Sdk}
use toasty_driver_surreal.Conn.Session.{Connection, attempt, ask, take_rows}
use toasty_driver_surreal.Op.{ExecResponse, value_stream, rows_to_records}
use toasty_driver_surreal.Op.Write.{
  Row, Source, Returning, returning_columns, pk_to_value, split_row,
}

-- `stmt::Insert`
pub record Insert : Type 0 where
  pub table : Table
  pub columns : List Column
  pub source : Source
  pub returning : Option Returning

module _ (C : Codec) where
  -- the record id and the content of one row
  unfoldable pub build_row : Insert → Row → Result (SurValue × Object)
  unfolding split_row pk_to_value record_id
  build_row insert row = do
    (pk_values, content) ← split_row C "insert" insert.table row 0 insert.columns ([], Object.end)
    rid ← record_id C insert.table (pk_to_value pk_values)
    ok (to_value rid, content)

abbrev pub create_text : Bool → String
create_text want_return =
    if want_return then "CREATE $rid CONTENT $data RETURN AFTER" else "CREATE $rid CONTENT $data"

abbrev pub create_binds : SurValue × Object → Binds
create_binds (rid, content) = ("rid", rid) ∷ ("data", SurValue.object content) ∷ []

module _ (C : Codec) (lookup : Object → String → Option SurValue) {S T R : Type 0}
    (sdk : Sdk S T R) where
  -- the records of a response, when columns are to be returned
  returned_records : Option (List Column) → List SurValue → Result (List Value)
  unfolding rows_to_records
  returned_records none rows = ok []
  returned_records (some columns) rows = rows_to_records C lookup rows columns

  unfoldable pub response_records : Option (List Column) → Result R → Result (List Value)
  unfolding take_rows returned_records
  response_records returning response = do
    r ← response
    rows ← take_rows sdk r 0
    returned_records returning rows

  -- one `CREATE`: the records that it returns
  unfoldable pub create_row :
      Connection S T
      → Bool
      → Option (List Column)
      → Result (SurValue × Object)
      → Result (List Value) × Connection S T
  unfolding ask response_records
  create_row conn want_return returning built = attempt conn built (λ made.
      ask sdk conn (create_text want_return, create_binds made) (response_records returning))

  -- the count and the records after a row
  unfoldable pub tallied : ℕ × List Value → Result (List Value) → Result (ℕ × List Value)
  tallied (count, records) created = created >>= λ more. ok (suc count, records ++ more)

  -- the loop over the rows, up to the first that fails
  unfoldable pub insert_rows :
      Insert
      → Bool
      → Option (List Column)
      → List Row
      → Result (ℕ × List Value) × Connection S T
      → Result (ℕ × List Value) × Connection S T
  unfolding create_row tallied build_row
  insert_rows insert want_return returning rows (err e, conn) = (err e, conn)
  insert_rows insert want_return returning [] (ok tally, conn) = (ok tally, conn)
  insert_rows insert want_return returning (row ∷ rows) (ok tally, conn) =
      let (created, after) = create_row conn want_return returning (build_row C insert row) in
      insert_rows insert want_return returning rows (tallied tally created, after)

  insert_response : Option (List Column) → ℕ × List Value → ExecResponse
  insert_response none (count, records) = ExecResponse.count count
  insert_response (some columns) (count, records) = value_stream records

  unfoldable pub insert_all :
      Connection S T
      → Insert
      → Bool
      → List Row
      → Option (List Column)
      → Result ExecResponse × Connection S T
  unfolding insert_rows insert_response
  insert_all conn insert ret rows returning =
      let (tally, after) =
        insert_rows insert (is_some returning || ret) returning rows (ok (0, []), conn) in
      (tally >>= λ t. ok (insert_response returning t), after)

  unfoldable pub insert_source :
      Connection S T → Insert → Bool → Source → Result ExecResponse × Connection S T
  unfolding insert_all returning_columns
  insert_source conn insert ret Source.other =
      (err (invalid_statement "SurrealDB insert requires a VALUES source"), conn)
  insert_source conn insert ret (Source.values rows) =
      attempt conn (returning_columns "insert" insert.returning) (insert_all conn insert ret rows)

  -- `ret` tells whether returned types are asked for
  unfoldable pub exec_insert : Connection S T → Insert → Bool → Result ExecResponse × Connection S T
  unfolding insert_source
  exec_insert conn insert ret = insert_source conn insert ret insert.source
