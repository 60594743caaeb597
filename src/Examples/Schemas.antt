-- ===== src/Examples/Schemas.antt =====
-- The unit tests of src/migration.rs, on their table `items`, with the differences of their schemas.
use native.Mathlib.Decide.{ℕ_discrete}
use toasty_driver_surreal.Prelude.{String, ◌<>◌, true, false, List, [], ◌∷◌, ◌≡◌, refl}
use toasty_driver_surreal.Text.{join, replace, contains}
use toasty_driver_surreal.Value.{StmtType, DbType}
use toasty_driver_surreal.Schema.{Column, Index, Table}
use toasty_driver_surreal.Expr.{escape_ident, is_primary_key}
use toasty_driver_surreal.Migration.Diff.{ColumnDiff, IndexDiff, TableDiff}
use toasty_driver_surreal.Migration.Statements.{
  manual_guard, remove_index_statement, define_index_statement, move_statement, unset_statement,
  remove_table,
}
use toasty_driver_surreal.Migration.Alter.{
  alter_plan, rebuild_indices, index_steps, index_step, column_steps, column_step,
  primary_key_changed, define_if_secondary, remove_if_secondary,
}
use toasty_driver_surreal.Migration.Generate.{generate, table_step}
use toasty_driver_surreal.Examples.Samples.{catalog}

abbrev id_column : String → Column
id_column name = record {
  id = record { table = 0; index = 0 };
  name = name;
  ty = StmtType.i64;
  storage_ty = DbType.other 8;
}

abbrev value_column : String → DbType → Column
value_column name storage_ty = record {
  id = record { table = 0; index = 1 };
  name = name;
  ty = StmtType.string;
  storage_ty = storage_ty;
}

abbrev text : DbType
text = DbType.other 1

abbrev items_pk : Index
items_pk = record {
  name = "items_pk";
  columns = record { table = 0; index = 0 } ∷ [];
  unique = true;
  primary_key = true;
}

abbrev items_value : Index
items_value = record {
  name = "items_value";
  columns = record { table = 0; index = 1 } ∷ [];
  unique = false;
  primary_key = false;
}

abbrev items_unique : Index
items_unique = record items_value { unique = true }

abbrev table_of : String → List Column → List Index → Table
table_of name columns indices = record {
  name = name;
  columns = columns;
  primary_key = record { table = 0; index = 0 } ∷ [];
  indices = indices;
}

abbrev id : Column
id = id_column "id"

abbrev value : Column
value = value_column "value" text

abbrev full : Table
full = table_of "items" (id ∷ value ∷ []) (items_pk ∷ items_value ∷ [])

abbrev id_only : Table
id_only = table_of "items" (id ∷ []) (items_pk ∷ [])

creates_and_drops :
    (generate catalog (TableDiff.create full ∷ [])
      ≡ "DEFINE TABLE `items` SCHEMALESS"
        ∷ "DEFINE INDEX `items_value` ON TABLE `items` COLUMNS `value`" ∷ [])
    × (generate catalog (TableDiff.drop full ∷ []) ≡ "REMOVE TABLE `items`" ∷ [])
unfolding generate table_step alter_plan rebuild_indices index_steps index_step column_steps
    column_step primary_key_changed define_if_secondary remove_if_secondary remove_index_statement
    define_index_statement move_statement unset_statement remove_table escape_ident join replace
    is_primary_key ℕ_discrete
creates_and_drops = (refl, refl)

-- by removing and then defining
alters_secondary_index :
    generate catalog (
      TableDiff.alter full
        (table_of "items" (id ∷ value ∷ []) (items_pk ∷ items_unique ∷ []))
        []
        (IndexDiff.alter items_value items_unique ∷ [])
      ∷ [])
    ≡ "REMOVE INDEX `items_value` ON TABLE `items`"
      ∷ "DEFINE INDEX `items_value` ON TABLE `items` COLUMNS `value` UNIQUE" ∷ []
unfolding generate table_step alter_plan rebuild_indices index_steps index_step column_steps
    column_step primary_key_changed define_if_secondary remove_if_secondary remove_index_statement
    define_index_statement move_statement unset_statement remove_table escape_ident join replace
    is_primary_key ℕ_discrete
alters_secondary_index = refl

-- an added column changes nothing, and a dropped one is unset in the data
adds_and_drops_columns :
    (generate catalog (
        TableDiff.alter id_only full (ColumnDiff.add value ∷ []) (IndexDiff.create items_value ∷ [])
        ∷ [])
      ≡ "DEFINE INDEX `items_value` ON TABLE `items` COLUMNS `value`" ∷ [])
    × (generate catalog (
          TableDiff.alter full id_only
            (ColumnDiff.drop value ∷ [])
            (IndexDiff.drop items_value ∷ [])
          ∷ [])
        ≡ "REMOVE INDEX `items_value` ON TABLE `items`" ∷ "UPDATE `items` UNSET `value` RETURN NONE"
          ∷ [])
    × (generate catalog (
          TableDiff.alter id_only
            (table_of "items" (id ∷ value ∷ []) (items_pk ∷ []))
            (ColumnDiff.add value ∷ [])
            []
          ∷ [])
        ≡ "RETURN NONE" ∷ [])
unfolding generate table_step alter_plan rebuild_indices index_steps index_step column_steps
    column_step primary_key_changed define_if_secondary remove_if_secondary remove_index_statement
    define_index_statement move_statement unset_statement remove_table escape_ident join replace
    is_primary_key ℕ_discrete
adds_and_drops_columns = (refl, refl, refl)

abbrev renamed : Column
renamed = value_column "renamed" text

-- the data are moved and an index that has not changed is built again
renames_column :
    generate catalog (
      TableDiff.alter full
        (table_of "items" (id ∷ renamed ∷ []) (items_pk ∷ items_value ∷ []))
        (ColumnDiff.alter value renamed ∷ [])
        []
      ∷ [])
    ≡ "REMOVE INDEX `items_value` ON TABLE `items`"
      ∷ "DEFINE INDEX `items_value` ON TABLE `items` COLUMNS `renamed`"
      ∷ "UPDATE `items` SET `renamed` = `value` WHERE `value` IS NOT NONE RETURN NONE"
      ∷ "UPDATE `items` UNSET `value` RETURN NONE" ∷ []
unfolding generate table_step alter_plan rebuild_indices index_steps index_step column_steps
    column_step primary_key_changed define_if_secondary remove_if_secondary remove_index_statement
    define_index_statement move_statement unset_statement remove_table escape_ident join replace
    is_primary_key ℕ_discrete
renames_column = refl

abbrev renamed_id : Column
renamed_id = id_column "renamed_id"

-- the name of a key column is an alias in the projections
renames_primary_key :
    generate catalog (
      TableDiff.alter full
        (table_of "items" (renamed_id ∷ value ∷ []) (items_pk ∷ items_value ∷ []))
        (ColumnDiff.alter id renamed_id ∷ [])
        []
      ∷ [])
    ≡ "RETURN NONE" ∷ []
unfolding generate table_step alter_plan rebuild_indices index_steps index_step column_steps
    column_step primary_key_changed define_if_secondary remove_if_secondary remove_index_statement
    define_index_statement move_statement unset_statement remove_table escape_ident join replace
    is_primary_key ℕ_discrete
renames_primary_key = refl

abbrev typed : Column
typed = value_column "value" DbType.json

abbrev retyped : List String
retyped = generate catalog (
    TableDiff.alter full (table_of "items" (id ∷ typed ∷ []) (items_pk ∷ items_value ∷ []))
      (ColumnDiff.alter value typed ∷ []) []
    ∷ [])

abbrev moved : List String
moved = generate catalog (
    TableDiff.alter full (table_of "renamed_items" (id ∷ value ∷ []) (items_pk ∷ items_value ∷ []))
      [] []
    ∷ [])

abbrev HoldsOne : String → String → List String → Type 0
HoldsOne start part statements =
    (rest : String) × (statements ≡ (start <> rest) ∷ []) × (contains rest part ≡ true)

-- a guard and nothing else
unsafe_changes :
    HoldsOne "THROW 'manual migration required:" "column type change" retyped
    × HoldsOne "THROW 'manual migration required:" "table rename" moved
unfolding generate table_step alter_plan rebuild_indices index_steps index_step column_steps
    column_step primary_key_changed define_if_secondary remove_if_secondary remove_index_statement
    define_index_statement move_statement unset_statement remove_table escape_ident join replace
    is_primary_key ℕ_discrete manual_guard contains
unsafe_changes = (
  (" column type change on items.value'", refl, refl),
  (" table rename from items to renamed_items'", refl, refl),
)
