-- ===== src/Op.antt =====
-- src/op.rs: what the operations share, projections of columns and the decoding of rows. The
-- operations are the children.
pub mod Rows
pub mod GetByKey
pub mod DeleteByKey
pub mod Write
pub mod Insert
pub mod QueryPk
pub mod Scan
pub mod FindPkByIndex
pub mod UpdateByKey
pub mod Upsert
pub mod Keeps
pub mod Store
use toasty_driver_surreal.Prelude.{
  ℕ, String, ◌<>◌, List, [], ◌∷◌, Option, none, some, if◌then◌else◌, map,
}
use toasty_driver_surreal.Text.{join}
use toasty_driver_surreal.Error.{Result, ok, ◌>>=◌}
use toasty_driver_surreal.Schema.{Column, Table}
use toasty_driver_surreal.Value.{Value, Values, SurValue, Object}
use toasty_driver_surreal.Value.Codec.{Codec}
use toasty_driver_surreal.Value.Decode.{from_surreal_for_column}
use toasty_driver_surreal.Expr.{escape_ident, is_primary_key, column_ref}

-- `ExecResponse`: a count, or a stream of values with the cursor of the next page; no operation gives
-- one of a previous page
pub data ExecResponse : Type 0 where
  count : ℕ → ExecResponse
  page : List Value → Option Value → ExecResponse

-- `ExecResponse::value_stream`
abbrev pub value_stream : List Value → ExecResponse
value_stream values = ExecResponse.page values none

unfoldable pub projected_column : Table → Column → String
projected_column table column =
    if is_primary_key table column
    then column_ref table column <> " AS " <> escape_ident column.name
    else escape_ident column.name

or_all : List String → String
or_all [] = "*"
or_all (part ∷ parts) = join ", " (part ∷ parts)

unfoldable pub project_columns : Table → List Column → String
unfolding projected_column or_all
project_columns table columns = or_all (map (projected_column table) columns)

-- the clause of the predicates, which the operations join alike
unfoldable pub where_clause : List String → String
where_clause [] = ""
where_clause (p ∷ ps) = " WHERE " <> join " AND " (p ∷ ps)

module _ (C : Codec) (lookup : Object → String → Option SurValue) where
  -- `unwrap_or(SurValue::None)`
  abbrev or_none : Option SurValue → SurValue
  or_none none = SurValue.none
  or_none (some value) = value

  -- the field of a row; a row that is no object has none
  unfoldable pub field_of : SurValue → String → SurValue
  field_of (SurValue.object obj) name = or_none (lookup obj name)
  field_of _ name = SurValue.none

  unfoldable pub row_fields : SurValue → List Column → Result Values
  row_fields row [] = ok Values.nil
  row_fields row (column ∷ columns) = do
    value ← from_surreal_for_column C (field_of row column.name) column
    values ← row_fields row columns
    ok (Values.cons value values)

  unfoldable pub row_to_record : SurValue → List Column → Result Value
  unfolding row_fields
  row_to_record row columns = do fields ← row_fields row columns; ok (Value.record_value fields)

  -- the loop over the rows of a response
  unfoldable pub rows_to_records : List SurValue → List Column → Result (List Value)
  unfolding row_to_record
  rows_to_records [] columns = ok []
  rows_to_records (row ∷ rows) columns = do
    decoded ← row_to_record row columns
    records ← rows_to_records rows columns
    ok (decoded ∷ records)
