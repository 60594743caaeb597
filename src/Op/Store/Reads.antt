-- ===== src/Op/Store/Reads.antt =====
-- A read by the key of a record that is stored.
use toasty_driver_surreal.Prelude.{
  String, List, [], ◌∷◌, Option, ◌≡◌, refl, ap, All, inl, inr, Bool-cases, map,
}
use toasty_driver_surreal.Text.{join, decimal}
use toasty_driver_surreal.Error.{ok}
use toasty_driver_surreal.Schema.{Column, Table}
use toasty_driver_surreal.Value.{Value, Values, SurValue, Object, to_values}
use toasty_driver_surreal.Value.Codec.{Codec}
use toasty_driver_surreal.Value.Decode.{from_surreal_for_column}
use toasty_driver_surreal.RecordId.{RecordId, record_id}
use toasty_driver_surreal.Expr.{is_primary_key, column_ref}
use toasty_driver_surreal.Conn.Sdk.{Sdk}
use toasty_driver_surreal.Conn.Session.{Connection, checked, run_query, ask, take_rows}
use toasty_driver_surreal.Op.{
  value_stream, field_of, row_fields, row_to_record, rows_to_records, project_columns,
  projected_column,
}
use toasty_driver_surreal.Op.Write.Keys.{Cell, cell_columns}
use toasty_driver_surreal.Op.GetByKey.{
  key_targets, get_keys, exec_get_by_key, decode_response, select_text,
}
use toasty_driver_surreal.Op.Store.{item, items, ShowsColumn, IsStore}
use toasty_driver_surreal.Op.Store.Fields.{All-columns}

-- the code's projection
item_lem : (table : Table) (column : Column) → projected_column table column ≡ item table column
unfolding projected_column column_ref
item_lem table column = elim (Bool-cases (is_primary_key table column)) [
  | inl k ↦ rw k refl
  | inr k ↦ rw k refl
]

map_items :
    (table : Table) (columns : List Column)
    → map (projected_column table) columns ≡ map (item table) columns
map_items table [] = refl
map_items table (column ∷ columns) = rw (item_lem table column, map_items table columns) refl

project_columns-items :
    (table : Table) (columns : List Column) → project_columns table columns ≡ items table columns
unfolding project_columns
project_columns-items table [] = refl
project_columns-items table (column ∷ columns) = ap (join ", ") (map_items table (column ∷ columns))

-- the values of a row's cells
abbrev pub cell_values : List Cell → Values
cell_values cells = to_values (map (λ (cell : Cell). cell.1) cells)

module _ (C : Codec) (lookup : Object → String → Option SurValue) {S T R : Type 0}
    (sdk : Sdk S T R) where
  row_read :
      (row : SurValue) (cells : List Cell)
      → All
          (λ (cell : Cell).
            from_surreal_for_column C (field_of C lookup row cell.0.name) cell.0 ≡ ok cell.1)
          cells
      → row_fields C lookup row (cell_columns cells) ≡ ok (cell_values cells)
  unfolding row_fields
  row_read row [] h = refl
  row_read row (cell ∷ cells) (h, hs) = rw (h, row_read row cells hs) refl

  -- the read of a record that is stored
  module _ (table : Table) (cells : List Cell) (Stored : S → RecordId → Object → Type 0)
      (t : Option T) (store : IsStore C lookup sdk t table (cell_columns cells) Stored) where
    pub exec_get_by_key-Stored :
        (conn : Connection S T) (key : Value) (id : RecordId) (content : Object)
        → conn.transaction ≡ t
        → record_id C table key ≡ ok id
        → Stored conn.server id content
        → ((row : Object)
            → All (λ (cell : Cell). ShowsColumn C lookup table id content row cell.0) cells
            → All
                (λ (cell : Cell).
                  from_surreal_for_column C
                    (field_of C lookup (SurValue.object row) cell.0.name)
                    cell.0
                  ≡ ok cell.1)
                cells)
        → (exec_get_by_key C lookup sdk conn
            (record { table = table; select = cell_columns cells; keys = key ∷ [] })).0
          ≡ ok (value_stream (Value.record_value (cell_values cells) ∷ []))
    unfolding exec_get_by_key get_keys key_targets ask run_query checked decode_response select_text
        take_rows rows_to_records row_to_record join decimal
    exec_get_by_key-Stored conn key id content same made stored shown =
        let (r, (after, (row, answered, (passed, taken), shows))) =
          store.selected conn.server id content stored in
        rw
          (
            made,
            project_columns-items table (cell_columns cells),
            same,
            answered,
            passed,
            taken,
            row_read (SurValue.object row) cells (shown row (All-columns _ cells shows)),
          )
          refl
