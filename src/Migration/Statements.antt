-- ===== src/Migration/Statements.antt =====
-- The statements of src/migration.rs, one function for each, and `push_unique`.
pub mod Reason
use toasty_driver_surreal.Prelude.{
  String, ◌<>◌, Bool, not, List, [], ◌∷◌, ◌++◌, map, any, if◌then◌else◌, str_eq,
}
use toasty_driver_surreal.Text.{replace, join}
use toasty_driver_surreal.Schema.{Column, Index, Table, Catalog}
use toasty_driver_surreal.Expr.{escape_ident}

abbrev pub tracking_table : String
tracking_table = "__toasty_migrations"

abbrev pub tracking_id_alias : String
tracking_id_alias = "migration_id"

unfoldable pub manual_guard : String → String
unfolding replace
manual_guard reason =
    "THROW 'manual migration required: " <> replace b'\'' "\\'" (replace b'\\' "\\\\" reason) <> "'"

abbrev pub contains_text : List String → String → Bool
contains_text statements statement = any (λ s. str_eq s statement) statements

unfoldable pub push_unique : List String → String → List String
push_unique statements statement =
    if contains_text statements statement then statements else statements ++ statement ∷ []

-- the optional clauses
abbrev condition : Bool → String
condition if_not_exists = if if_not_exists then " IF NOT EXISTS" else ""

abbrev uniqueness : Bool → String
uniqueness unique = if unique then " UNIQUE" else ""

unfoldable pub remove_table : Table → String
remove_table table = "REMOVE TABLE " <> escape_ident table.name

unfoldable pub define_index_statement : Catalog → Table → Index → Bool → String
unfolding join
define_index_statement cat table index if_not_exists =
    "DEFINE INDEX"
    <> condition if_not_exists
    <> " "
    <> escape_ident index.name
    <> " ON TABLE "
    <> escape_ident table.name
    <> " COLUMNS "
    <> join ", " (map (λ id. escape_ident (cat.column table id).name) index.columns)
    <> uniqueness index.unique

unfoldable pub remove_index_statement : Table → Index → String
remove_index_statement table index =
    "REMOVE INDEX " <> escape_ident index.name <> " ON TABLE " <> escape_ident table.name

-- `UPDATE .. UNSET`, of a dropped or a moved column
unfoldable pub unset_statement : Table → Column → String
unset_statement table column =
    "UPDATE " <> escape_ident table.name <> " UNSET " <> escape_ident column.name <> " RETURN NONE"

-- `UPDATE .. SET`, of a renamed column
unfoldable pub move_statement : Table → Column → Column → String
move_statement table previous next =
    "UPDATE "
    <> escape_ident table.name
    <> " SET "
    <> escape_ident next.name
    <> " = "
    <> escape_ident previous.name
    <> " WHERE "
    <> escape_ident previous.name
    <> " IS NOT NONE RETURN NONE"

index_statements : Catalog → Table → Bool → List Index → List String
index_statements cat table if_not_exists [] = []
index_statements cat table if_not_exists (index ∷ rest) =
    if not index.primary_key
    then define_index_statement cat table index if_not_exists
      ∷ index_statements cat table if_not_exists rest
    else index_statements cat table if_not_exists rest

unfoldable pub define_table_statements : Catalog → Table → Bool → List String
unfolding index_statements
define_table_statements cat table if_not_exists =
    ("DEFINE TABLE" <> condition if_not_exists <> " " <> escape_ident table.name <> " SCHEMALESS")
    ∷ index_statements cat table if_not_exists table.indices
