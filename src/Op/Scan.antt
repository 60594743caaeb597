-- ===== src/Op/Scan.antt =====
-- src/op/scan.rs.
use toasty_driver_surreal.Prelude.{String, List, [], Option, none, some}
use toasty_driver_surreal.Error.{Result, ok, ◌>>=◌}
use toasty_driver_surreal.Schema.{Column, Table, Catalog}
use toasty_driver_surreal.Value.{SurValue, Object}
use toasty_driver_surreal.Value.Codec.{Codec}
use toasty_driver_surreal.Expr.{Expr, ExprContext, Binds, escape_ident}
use toasty_driver_surreal.Expr.Render.{render}
use toasty_driver_surreal.Conn.Sdk.{Sdk}
use toasty_driver_surreal.Conn.Session.{Connection, attempt}
use toasty_driver_surreal.Op.{ExecResponse, project_columns}
use toasty_driver_surreal.Op.QueryPk.{
  Pagination, KeysetSelect, run_keyset_select, sort_column, sort_ref,
}

-- `operation::Scan`, with its table and its columns looked up
pub record Scan : Type 0 where
  pub table : Table
  pub select : List Column
  pub filter : Option Expr
  pub limit : Option Pagination

module _ (C : Codec) (cx : ExprContext) (catalog : Catalog) where
  unfoldable pub scan_predicate : Table → Option Expr → Result (Option String × Binds)
  unfolding render
  scan_predicate table none = ok (none, [])
  scan_predicate table (some filter) = do
    (predicate, binds) ← render C cx table filter []
    ok (some predicate, binds)

  unfoldable pub scan_input : Scan → Option String × Binds → KeysetSelect
  unfolding escape_ident project_columns sort_ref
  scan_input op (predicate, binds) = record {
    table_name = escape_ident op.table.name;
    projection = project_columns op.table op.select;
    predicate = predicate;
    sort_ref = sort_ref op.table (sort_column catalog op.table);
    sort_column = sort_column catalog op.table;
    order = none;
    limit = op.limit;
    binds = binds;
    select = op.select;
  }

  module _ (lookup : Object → String → Option SurValue) {S T R : Type 0} (sdk : Sdk S T R) where
    unfoldable pub exec_scan : Connection S T → Scan → Result ExecResponse × Connection S T
    unfolding scan_predicate run_keyset_select scan_input
    exec_scan conn op =
        attempt conn (scan_predicate op.table op.filter)
          (λ made. run_keyset_select C lookup sdk conn (scan_input op made))
