-- ===== src/Op/DeleteByKey.antt =====
-- src/op/delete_by_key.rs.
pub mod Effect
pub mod Target
use toasty_driver_surreal.Prelude.{
  ℕ, String, ◌<>◌, Bool, true, false, List, [], ◌∷◌, ◌++◌, Option, none, some, length, is_empty,
  is_some, ◌&&◌, if◌then◌else◌,
}
use toasty_driver_surreal.Text.{join, decimal}
use toasty_driver_surreal.Error.{Result, ok, err, invalid_statement, condition_failed, ◌>>=◌}
use toasty_driver_surreal.Schema.{Table}
use toasty_driver_surreal.Value.{Value, SurValue}
use toasty_driver_surreal.Value.Codec.{Codec}
use toasty_driver_surreal.RecordId.{record_id, to_value}
use toasty_driver_surreal.Expr.{Expr, ExprContext, Binds, push_named}
use toasty_driver_surreal.Expr.Render.{render}
use toasty_driver_surreal.Conn.Sdk.{Sdk}
use toasty_driver_surreal.Conn.Session.{Connection, attempt, ask, take_rows}
use toasty_driver_surreal.Op.{ExecResponse, where_clause}

-- `operation::DeleteByKey`, with its table looked up
pub record DeleteByKey : Type 0 where
  pub table : Table
  pub keys : List Value
  pub filter : Option Expr
  pub condition : Option Expr

module _ (C : Codec) (cx : ExprContext) where
  -- `if let Some(..)`: a predicate more
  unfoldable pub add_predicate :
      Table → Option Expr → List String × Binds → Result (List String × Binds)
  unfolding render
  add_predicate table none (predicates, binds) = ok (predicates, binds)
  add_predicate table (some e) (predicates, binds) = do
    (text, after) ← render C cx table e binds
    ok (predicates ++ text ∷ [], after)

  -- the text and the binds of the statement
  unfoldable pub delete_statement : DeleteByKey → Value → Result (String × Binds)
  unfolding add_predicate where_clause record_id push_named
  delete_statement op key = do
    filtered ← add_predicate op.table op.filter ([], [])
    (predicates, binds) ← add_predicate op.table op.condition filtered
    rid ← record_id C op.table key
    ok (
      "DELETE $rid" <> where_clause predicates <> " RETURN BEFORE",
      push_named binds "rid" (to_value rid),
    )

  module _ {S T R : Type 0} (sdk : Sdk S T R) where
    -- nothing was deleted under a condition
    count_or_fail : Bool → List SurValue → Result ExecResponse
    count_or_fail true rows = err (condition_failed "SurrealDB delete condition did not match")
    count_or_fail false rows = ok (ExecResponse.count (length rows))

    deleted_count : DeleteByKey → Result R → Result ExecResponse
    unfolding take_rows count_or_fail
    deleted_count op response = do
      r ← response
      rows ← take_rows sdk r 0
      count_or_fail (is_empty rows && is_some op.condition) rows

    unfoldable pub delete_keys :
        Connection S T → DeleteByKey → List Value → Result ExecResponse × Connection S T
    unfolding ask deleted_count delete_statement decimal
    delete_keys conn op (key ∷ []) =
        attempt conn (delete_statement op key) (λ made. ask sdk conn made (deleted_count op))
    delete_keys conn op keys = (
      err (
          invalid_statement
            ("SurrealDB delete expects exactly one key, got " <> decimal (length keys))),
      conn,
    )

    unfoldable pub exec_delete_by_key :
        Connection S T → DeleteByKey → Result ExecResponse × Connection S T
    unfolding delete_keys
    exec_delete_by_key conn op = delete_keys conn op op.keys
