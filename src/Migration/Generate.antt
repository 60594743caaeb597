-- ===== src/Migration/Generate.antt =====
-- `generate` of src/migration.rs, up to the statements that it hands to
-- `Migration::new_sql_with_breakpoints`.
pub mod First
use toasty_driver_surreal.Prelude.{String, false, List, [], ◌∷◌, ◌++◌}
use toasty_driver_surreal.Schema.{Catalog}
use toasty_driver_surreal.Migration.Diff.{TableDiff}
use toasty_driver_surreal.Migration.Statements.{
  manual_guard, push_unique, remove_table, define_table_statements,
}
use toasty_driver_surreal.Migration.Alter.{render_alter_table}

unfoldable pub table_step : Catalog → List String → TableDiff → List String
unfolding push_unique render_alter_table define_table_statements
table_step cat statements (TableDiff.create table) =
    statements ++ define_table_statements cat table false
table_step cat statements (TableDiff.drop table) = statements ++ remove_table table ∷ []
table_step cat statements (TableDiff.alter previous next columns indices) =
    render_alter_table cat previous next columns indices statements
table_step cat statements TableDiff.other =
    push_unique statements (manual_guard "unknown table schema change")

unfoldable pub table_steps : Catalog → List String → List TableDiff → List String
table_steps cat statements [] = statements
table_steps cat statements (t ∷ ts) = table_steps cat (table_step cat statements t) ts

-- a migration has a statement, also when nothing physical changes
unfoldable pub or_nothing : List String → List String
or_nothing [] = "RETURN NONE" ∷ []
or_nothing (s ∷ ss) = s ∷ ss

unfoldable pub generate : Catalog → List TableDiff → List String
unfolding table_steps or_nothing
generate cat tables = or_nothing (table_steps cat [] tables)
