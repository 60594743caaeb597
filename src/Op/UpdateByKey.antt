-- ===== src/Op/UpdateByKey.antt =====
-- src/op/update_by_key.rs.
pub mod Target
use toasty_driver_surreal.Prelude.{
  ℕ, String, ◌<>◌, Bool, true, false, List, [], ◌∷◌, ◌++◌, Option, none, some, length, is_empty,
  is_some, ◌&&◌, if◌then◌else◌, map,
}
use toasty_driver_surreal.Text.{join, decimal}
use toasty_driver_surreal.Error.{
  Result, ok, err, invalid_statement, unsupported_feature, condition_failed, ◌>>=◌,
}
use toasty_driver_surreal.Schema.{ColumnId, Column, Table, Catalog}
use toasty_driver_surreal.Value.{Value, SurValue, Object}
use toasty_driver_surreal.Value.Codec.{Codec}
use toasty_driver_surreal.Value.Encode.{to_surreal_for_column}
use toasty_driver_surreal.RecordId.{record_id, to_value}
use toasty_driver_surreal.Expr.{Expr, ExprContext, Binds, push, push_named, escape_ident}
use toasty_driver_surreal.Conn.Sdk.{Sdk}
use toasty_driver_surreal.Conn.Session.{Connection, attempt, ask, take_rows}
use toasty_driver_surreal.Op.{ExecResponse, value_stream, where_clause, rows_to_records}
use toasty_driver_surreal.Op.DeleteByKey.{add_predicate}
use toasty_driver_surreal.Op.Write.Assign.{
  Assignment, Assignments, append_list, with_placeholder, set_value,
}

-- `operation::UpdateByKey`, with its table and the columns to return looked up
pub record UpdateByKey : Type 0 where
  pub table : Table
  pub keys : List Value
  pub assignments : Assignments
  pub filter : Option Expr
  pub condition : Option Expr
  pub returning : Option (List Column)

unfoldable pub set_clause : List String → String
set_clause [] = ""
set_clause (s ∷ sets) = " SET " <> join ", " (s ∷ sets)

module _ (C : Codec) (debug_assignment : Assignment → String) where
  unsupported_assignment : Assignment → Result (String × Binds)
  unsupported_assignment a = err (
      unsupported_feature
        ("SurrealDB driver does not support update assignment: " <> debug_assignment a))

  -- one round of the loop over the assignments
  unfoldable pub update_assignment : Column → Assignment → Binds → Result (String × Binds)
  unfolding set_value append_list push to_surreal_for_column escape_ident unsupported_assignment
  update_assignment column (Assignment.set (Expr.value v)) binds = set_value C column v binds
  update_assignment column (Assignment.add (Expr.value v)) binds =
      let name = escape_ident column.name in
      with_placeholder C (to_surreal_for_column C v column) binds
        (λ p. name <> " = " <> name <> " + " <> p)
  update_assignment column (Assignment.subtract (Expr.value v)) binds =
      let name = escape_ident column.name in
      with_placeholder C (to_surreal_for_column C v column) binds
        (λ p. name <> " = " <> name <> " - " <> p)
  update_assignment column (Assignment.append (Expr.value v)) binds =
      with_placeholder C (append_list C v column) binds
        (λ p. escape_ident column.name <> " += " <> p)
  update_assignment column a binds = unsupported_assignment a

  module _ (catalog : Catalog) where
    -- the loop over the assignments
    unfoldable pub update_sets :
        Table → Assignments → List String × Binds → Result (List String × Binds)
    unfolding update_assignment
    update_sets table [] made = ok made
    update_sets table ((projection, assignment) ∷ rest) (sets, binds) = do
      (text, after) ← update_assignment (catalog.resolve table projection) assignment binds
      update_sets table rest (sets ++ text ∷ [], after)

    module _ (cx : ExprContext) where
      unfoldable pub update_text : UpdateByKey → List String → List String → String
      unfolding set_clause where_clause
      update_text op sets predicates =
          "UPDATE $rid"
          <> set_clause sets
          <> where_clause predicates
          <> (if is_some op.returning then " RETURN AFTER" else "")

      -- the text and the binds of the statement
      unfoldable pub update_statement : UpdateByKey → Value → Result (String × Binds)
      unfolding update_sets add_predicate update_text record_id push_named
      update_statement op key = do
        (sets, assigned) ← update_sets op.table op.assignments ([], [])
        filtered ← add_predicate C cx op.table op.filter ([], assigned)
        (predicates, binds) ← add_predicate C cx op.table op.condition filtered
        rid ← record_id C op.table key
        ok (update_text op sets predicates, push_named binds "rid" (to_value rid))

      module _ (lookup : Object → String → Option SurValue) {S T R : Type 0} (sdk : Sdk S T R) where
        returned_rows : Option (List Column) → List SurValue → Result ExecResponse
        unfolding rows_to_records
        returned_rows none rows = ok (ExecResponse.count (length rows))
        returned_rows (some columns) rows = do
          records ← rows_to_records C lookup rows columns
          ok (value_stream records)

        -- nothing was updated under a condition
        rows_or_fail : Bool → UpdateByKey → List SurValue → Result ExecResponse
        unfolding returned_rows
        rows_or_fail true op rows =
            err (condition_failed "SurrealDB update condition did not match")
        rows_or_fail false op rows = returned_rows op.returning rows

        updated_rows : UpdateByKey → Result R → Result ExecResponse
        unfolding take_rows rows_or_fail
        updated_rows op response = do
          r ← response
          rows ← take_rows sdk r 0
          rows_or_fail (is_empty rows && is_some op.condition) op rows

        unfoldable pub update_keys :
            Connection S T → UpdateByKey → List Value → Result ExecResponse × Connection S T
        unfolding ask updated_rows update_statement decimal
        update_keys conn op (key ∷ []) =
            attempt conn (update_statement op key) (λ made. ask sdk conn made (updated_rows op))
        update_keys conn op keys = (
          err (
              invalid_statement
                ("SurrealDB update expects exactly one key, got " <> decimal (length keys))),
          conn,
        )

        unfoldable pub exec_update_by_key :
            Connection S T → UpdateByKey → Result ExecResponse × Connection S T
        unfolding update_keys
        exec_update_by_key conn op = update_keys conn op op.keys
