-- ===== src/Op/FindPkByIndex.antt =====
-- src/op/find_pk_by_index.rs.
use toasty_driver_surreal.Prelude.{String, ◌<>◌, []}
use toasty_driver_surreal.Error.{Result, ok, ◌>>=◌}
use toasty_driver_surreal.Schema.{Table, Catalog}
use toasty_driver_surreal.Value.{SurValue, Object}
use toasty_driver_surreal.Value.Codec.{Codec}
use toasty_driver_surreal.Expr.{Expr, ExprContext, escape_ident}
use toasty_driver_surreal.Expr.Render.{render}
use toasty_driver_surreal.Conn.Sdk.{Sdk}
use toasty_driver_surreal.Conn.Session.{Connection, attempt, ask, take_rows}
use toasty_driver_surreal.Op.{ExecResponse, value_stream, project_columns, rows_to_records}
use toasty_driver_surreal.Prelude.{Option}

-- `operation::FindPkByIndex`, with its table looked up
pub record FindPkByIndex : Type 0 where
  pub table : Table
  pub filter : Expr

module _ (C : Codec) (cx : ExprContext) (catalog : Catalog)
    (lookup : Object → String → Option SurValue) {S T R : Type 0} (sdk : Sdk S T R) where
  found_keys : Table → Result R → Result ExecResponse
  unfolding take_rows rows_to_records
  found_keys table response = do
    r ← response
    rows ← take_rows sdk r 0
    records ← rows_to_records C lookup rows (catalog.primary_key_columns table)
    ok (value_stream records)

  find_text : Table → String → String
  unfolding project_columns escape_ident
  find_text table predicate =
      "SELECT "
      <> project_columns table (catalog.primary_key_columns table)
      <> " FROM "
      <> escape_ident table.name
      <> " WHERE "
      <> predicate

  unfoldable pub exec_find_pk_by_index :
      Connection S T → FindPkByIndex → Result ExecResponse × Connection S T
  unfolding render find_text ask found_keys
  exec_find_pk_by_index conn op =
      attempt conn (render C cx op.table op.filter []) (λ (predicate, binds).
        ask sdk conn (find_text op.table predicate, binds) (found_keys op.table))
