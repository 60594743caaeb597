-- ===== src/Op/Write.antt =====
-- What src/op/insert.rs and src/op/upsert.rs share: a row of literals split into the values of the
-- primary key and the content of the record, and the columns to return. Both files hold the code,
-- with their own verb in the messages. Tables and columns are looked up already.
pub mod Keys
pub mod Assign
pub mod Mutations
use toasty_driver_surreal.Prelude.{
  ℕ, zero, suc, String, ◌<>◌, Bool, true, false, List, [], ◌∷◌, ◌++◌, Option, none, some, get_elem?,
  leb, if◌then◌else◌, map,
}
use toasty_driver_surreal.Text.{decimal}
use toasty_driver_surreal.Error.{Error, Result, ok, err, invalid_statement, ok_or, ◌>>=◌}
use toasty_driver_surreal.Schema.{Column, Table}
use toasty_driver_surreal.Value.{Value, Values, SurValue, Object, is_null}
use toasty_driver_surreal.Value.Codec.{Codec}
use toasty_driver_surreal.Value.Encode.{to_surreal_for_column}
use toasty_driver_surreal.Expr.{is_primary_key, position, or_first}

-- what `row.entry(position)` gives: a value, an expression that is a value, or another one
pub data Entry : Type 0 where
  value literal : Value → Entry
  other : Entry

abbrev pub Row : Type 0
Row = List Entry

pub data Source : Type 0 where
  values : List Row → Source
  other : Source

-- an item of a `RETURNING` record: a reference to a column, or another expression
pub data ReturningItem : Type 0 where
  reference : Column → ReturningItem
  other : ReturningItem

pub data Returning : Type 0 where
  project_record : List ReturningItem → Returning
  project_other other : Returning

-- `row_value`
literal_entry : String → ℕ → Option Entry → Result Value
literal_entry verb i (some (Entry.value v)) = ok v
literal_entry verb i (some (Entry.literal v)) = ok v
literal_entry verb i _ = err (
    invalid_statement
      ("SurrealDB " <> verb <> " row entry did not lower to a literal at position " <> decimal i))

unfoldable pub row_value : String → Row → ℕ → Result Value
unfolding literal_entry
row_value verb row i = literal_entry verb i (get_elem? row i)

item_columns : String → List ReturningItem → Result (List Column)
item_columns verb [] = ok []
item_columns verb (ReturningItem.reference column ∷ items) = do
  columns ← item_columns verb items
  ok (column ∷ columns)
item_columns verb (ReturningItem.other ∷ items) =
    err (invalid_statement (verb <> " returning item is not a column reference"))

unfoldable pub returning_columns : String → Option Returning → Result (Option (List Column))
unfolding item_columns
returning_columns verb none = ok none
returning_columns verb (some Returning.other) =
    err (invalid_statement (verb <> " returning is not a projection"))
returning_columns verb (some Returning.project_other) =
    err (invalid_statement (verb <> " returning must be a record"))
returning_columns verb (some (Returning.project_record items)) = do
  columns ← item_columns verb items
  ok (some columns)

-- `sort_by_key(|(pos, _)| *pos)`, which is stable
unfoldable pub insert_by_position : ℕ × Value → List (ℕ × Value) → List (ℕ × Value)
insert_by_position p [] = p ∷ []
insert_by_position p (q ∷ qs) =
    let rest = insert_by_position p qs in if leb p.0 q.0 then p ∷ q ∷ qs else q ∷ rest

unfoldable pub sort_by_position : List (ℕ × Value) → List (ℕ × Value)
unfolding insert_by_position
sort_by_position [] = []
sort_by_position (p ∷ ps) = insert_by_position p (sort_by_position ps)

abbrev pub to_record : List (ℕ × Value) → Values
to_record [] = Values.nil
to_record ((i, v) ∷ ps) = Values.cons v (to_record ps)

-- one column's value is the key, of several columns their record
abbrev pub key_of : List (ℕ × Value) → Value
key_of ((i, v) ∷ []) = v
key_of ps = Value.record_value (to_record ps)

unfoldable pub pk_to_value : List (ℕ × Value) → Value
unfolding sort_by_position
pk_to_value pk_values = key_of (sort_by_position pk_values)

-- The values of key columns, with their positions in the primary key, and the content.
abbrev pub Split : Type 0
Split = List (ℕ × Value) × Object

module _ (C : Codec) where
  -- one round of the loop, for a column that is in the primary key or not, and a value that is
  -- null or not
  unfoldable pub split_cell : Bool → Bool → Table → Column → Value → Split → Result Split
  unfolding position to_surreal_for_column
  split_cell true null table column v (pk_values, content) =
      ok (pk_values ++ (or_first (position table.primary_key column.id), v) ∷ [], content)
  split_cell false true table column v split = ok split
  split_cell false false table column v (pk_values, content) = do
    stored ← to_surreal_for_column C v column
    ok (pk_values, C.object_insert column.name stored content)

  -- the loop, from the `i`-th column on
  unfoldable pub split_row : String → Table → Row → ℕ → List Column → Split → Result Split
  unfolding split_cell row_value is_primary_key
  split_row verb table row i [] split = ok split
  split_row verb table row i (column ∷ columns) split = do
    v ← row_value verb row i
    next ← split_cell (is_primary_key table column) (is_null v) table column v split
    split_row verb table row (suc i) columns next
