-- ===== src/Op/QueryPk.antt =====
-- src/op/query_pk.rs: the reads by a primary-key filter, and the keyset select that scans share.
-- A page size and an offset are natural numbers.
pub mod Follow
pub mod Found
pub mod Pages
pub mod Left
pub mod Ends
pub mod Slices
pub mod Records
use toasty_driver_surreal.Prelude.{
  ℕ, String, ◌<>◌, Bool, true, false, List, [], ◌∷◌, ◌++◌, Option, none, some, length, last, ltb,
  if◌then◌else◌,
}
use toasty_driver_surreal.Text.{decimal}
use toasty_driver_surreal.Error.{Result, ok, ◌>>=◌}
use toasty_driver_surreal.Schema.{Column, Table, Catalog}
use toasty_driver_surreal.Value.{Value, SurValue, Object}
use toasty_driver_surreal.Value.Codec.{Codec}
use toasty_driver_surreal.Value.Encode.{to_surreal}
use toasty_driver_surreal.Value.Decode.{from_surreal}
use toasty_driver_surreal.Expr.{Expr, ExprContext, Binds, push, escape_ident, column_ref}
use toasty_driver_surreal.Expr.Render.{render}
use toasty_driver_surreal.Conn.Sdk.{Sdk}
use toasty_driver_surreal.Conn.Session.{Connection, attempt, ask, take_rows}
use toasty_driver_surreal.Op.{ExecResponse, where_clause, project_columns, rows_to_records}

-- `stmt::Direction`
pub data Direction : Type 0 where
  asc desc : Direction

-- a limit with an offset; a page size with the cursor after which the page begins
pub data Pagination : Type 0 where
  offset : ℕ → Option ℕ → Pagination
  cursor : ℕ → Option Value → Pagination

pub record KeysetSelect : Type 0 where
  pub table_name : String
  pub projection : String
  pub predicate : Option String
  pub sort_ref : String
  pub sort_column : Option Column
  pub order : Option Direction
  pub limit : Option Pagination
  pub binds : Binds
  pub select : List Column

-- `operation::QueryPk`, with its table and its columns looked up
pub record QueryPk : Type 0 where
  pub table : Table
  pub select : List Column
  pub pk_filter : Expr
  pub filter : Option Expr
  pub order : Option Direction
  pub limit : Option Pagination

abbrev pub sort_alias : String
sort_alias = "__toasty_sort_key"

abbrev pub cursor_mode : Option Pagination → Bool
cursor_mode (some (Pagination.cursor page_size after)) = true
cursor_mode _ = false

abbrev pub effective_order : Option Direction → Bool → Option Direction
effective_order (some dir) mode = some dir
effective_order none true = some Direction.asc
effective_order none false = none

abbrev pub resume_op : Option Direction → String
resume_op (some Direction.desc) = "<"
resume_op _ = ">"

abbrev pub predicates_of : Option String → List String
predicates_of none = []
predicates_of (some predicate) = predicate ∷ []

-- the column that the pages are sorted by, when they are sorted
abbrev pub sorting : Option Direction → Option Column → Option Direction
sorting (some dir) (some column) = some dir
sorting _ _ = none

abbrev pub dir_text : Direction → String
dir_text Direction.asc = "ASC"
dir_text Direction.desc = "DESC"

abbrev pub sort_projection : KeysetSelect → Option Direction → String
sort_projection input none = input.projection
sort_projection input (some dir) =
    input.projection <> ", " <> input.sort_ref <> " AS " <> sort_alias

abbrev pub order_clause : Option Direction → String
order_clause none = ""
order_clause (some dir) = " ORDER BY " <> sort_alias <> " " <> dir_text dir

abbrev start_clause : Option ℕ → String
start_clause none = ""
start_clause (some start) = " START " <> decimal start

-- the text that `apply_pagination` appends
unfoldable pub apply_pagination : String → Option Pagination → String
unfolding decimal
apply_pagination sql none = sql
apply_pagination sql (some (Pagination.offset limit start)) =
    sql <> " LIMIT " <> decimal limit <> start_clause start
apply_pagination sql (some (Pagination.cursor page_size after)) =
    sql <> " LIMIT " <> decimal page_size

module _ (C : Codec) where
  -- the predicates with that of the keyset resume, and the binds
  unfoldable pub resume : KeysetSelect → Option Pagination → Result (List String × Binds)
  unfolding push to_surreal
  resume input (some (Pagination.cursor page_size (some last_seen))) = do
    stored ← to_surreal C last_seen
    let (placeholder, binds) = push input.binds stored
    let op = resume_op (effective_order input.order true)
    ok (
      predicates_of input.predicate ++ (input.sort_ref <> " " <> op <> " " <> placeholder) ∷ [],
      binds,
    )
  resume input _ = ok (predicates_of input.predicate, input.binds)

  unfoldable pub keyset_text : KeysetSelect → List String → String
  unfolding where_clause apply_pagination
  keyset_text input predicates =
      let sorted =
        sorting (effective_order input.order (cursor_mode input.limit)) input.sort_column in
      apply_pagination
        ("SELECT "
          <> sort_projection input sorted
          <> " FROM "
          <> input.table_name
          <> where_clause predicates
          <> order_clause sorted)
        input.limit

  unfoldable pub keyset_statement : KeysetSelect → Result (String × Binds)
  unfolding resume keyset_text
  keyset_statement input = do
    (predicates, binds) ← resume input input.limit
    ok (keyset_text input predicates, binds)

  module _ (lookup : Object → String → Option SurValue) where
    decoded_cursor : Option SurValue → Column → Result (Option Value)
    unfolding from_surreal
    decoded_cursor none column = ok none
    decoded_cursor (some stored) column = do
      value ← from_surreal C stored column.ty
      ok (some value)

    -- the cursor in the last row of a full page
    cursor_in : Option SurValue → Option Column → Result (Option Value)
    unfolding decoded_cursor
    cursor_in (some (SurValue.object obj)) (some column) =
        decoded_cursor (lookup obj sort_alias) column
    cursor_in _ _ = ok none

    unfoldable pub keyset_cursor :
        List SurValue → Option Pagination → Option Column → Result (Option Value)
    unfolding cursor_in
    keyset_cursor rows (some (Pagination.cursor page_size after)) sort_column =
        if ltb (length rows) page_size then ok none else cursor_in (last rows) sort_column
    keyset_cursor rows _ sort_column = ok none

    module _ {S T R : Type 0} (sdk : Sdk S T R) where
      -- in cursor mode, which `keyset_cursor` tests too
      unfoldable pub keyset_response : KeysetSelect → Result R → Result ExecResponse
      unfolding take_rows keyset_cursor rows_to_records
      keyset_response input response = do
        r ← response
        rows ← take_rows sdk r 0
        next_cursor ← keyset_cursor rows input.limit input.sort_column
        records ← rows_to_records C lookup rows input.select
        ok (ExecResponse.page records next_cursor)

      unfoldable pub run_keyset_select :
          Connection S T → KeysetSelect → Result ExecResponse × Connection S T
      unfolding keyset_statement ask keyset_response
      run_keyset_select conn input =
          attempt conn (keyset_statement input) (λ made. ask sdk conn made (keyset_response input))

-- the last primary-key column, and the reference to it
abbrev pub sort_column : Catalog → Table → Option Column
sort_column catalog table = elim (last table.primary_key) [
  | none ↦ none
  | some id ↦ some (catalog.column table id)
]

unfoldable pub sort_ref : Table → Option Column → String
unfolding column_ref
sort_ref table none = "id"
sort_ref table (some column) = column_ref table column

module _ (C : Codec) (cx : ExprContext) (catalog : Catalog) where
  -- the filter on the primary key, and the optional one behind it
  unfoldable pub pk_predicate : QueryPk → Option Expr → Result (String × Binds)
  unfolding render
  pk_predicate op none = render C cx op.table op.pk_filter []
  pk_predicate op (some filter) = do
    (predicate, binds) ← render C cx op.table op.pk_filter []
    (extra, after) ← render C cx op.table filter binds
    ok ("(" <> predicate <> ") AND (" <> extra <> ")", after)

  unfoldable pub query_input : QueryPk → String × Binds → KeysetSelect
  unfolding escape_ident project_columns sort_ref
  query_input op (predicate, binds) = record {
    table_name = escape_ident op.table.name;
    projection = project_columns op.table op.select;
    predicate = some predicate;
    sort_ref = sort_ref op.table (sort_column catalog op.table);
    sort_column = sort_column catalog op.table;
    order = op.order;
    limit = op.limit;
    binds = binds;
    select = op.select;
  }

  module _ (lookup : Object → String → Option SurValue) {S T R : Type 0} (sdk : Sdk S T R) where
    unfoldable pub exec_query_pk : Connection S T → QueryPk → Result ExecResponse × Connection S T
    unfolding pk_predicate run_keyset_select query_input
    exec_query_pk conn op =
        attempt conn (pk_predicate op op.filter)
          (λ made. run_keyset_select C lookup sdk conn (query_input op made))
