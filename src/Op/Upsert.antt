-- ===== src/Op/Upsert.antt =====
-- src/op/upsert.rs. The clause's conflict columns are looked up; `Display` of the errors is an
-- argument.
pub mod Conflicts
pub mod Meaning
pub mod Sets
pub mod Created
pub mod Effect
pub mod Placeholders
pub mod Statement
use toasty_driver_surreal.Prelude.{
  ℕ, suc, String, ◌<>◌, Bool, true, false, List, [], ◌∷◌, ◌++◌, ◌||◌, ◌&&◌, not, Option, none, some,
  length, is_some, if◌then◌else◌, map, leb,
}
use toasty_driver_surreal.Text.{join, contains}
use toasty_driver_surreal.Error.{
  Error, Result, ok, err, invalid_statement, unsupported_feature, ◌>>=◌,
}
use toasty_driver_surreal.Schema.{ColumnId, Column, Table, Catalog, same_column}
use toasty_driver_surreal.Value.{Value, SurValue, Object, is_null}
use toasty_driver_surreal.Value.Codec.{Codec}
use toasty_driver_surreal.Value.Encode.{to_surreal_for_column}
use toasty_driver_surreal.RecordId.{RecordId, record_id, to_value}
use toasty_driver_surreal.Expr.{Expr, Binds, push, escape_ident, is_primary_key}
use toasty_driver_surreal.Conn.Sdk.{Sdk}
use toasty_driver_surreal.Conn.Session.{Connection, attempt, ask, take_rows}
use toasty_driver_surreal.Op.{ExecResponse, value_stream, rows_to_records}
use toasty_driver_surreal.Op.Write.{
  Row, Source, values, Returning, returning_columns, row_value, pk_to_value, split_row,
}
use toasty_driver_surreal.Op.Write.Assign.{
  Assignment, Assignments, Projection, assigns, assignment_to, append_list, with_placeholder,
  set_value,
}
use toasty_driver_surreal.Op.Insert.{Insert, create_text, create_binds}
use toasty_driver_surreal.Op.Write.Mutations.{created_sets, shared_sets, assign_clause}

pub data UpsertTarget : Type 0 where
  columns : List ColumnId → UpsertTarget
  other : UpsertTarget

pub data UpsertAction : Type 0 where
  update ignore : UpsertAction

pub record UpsertClause : Type 0 where
  pub target : UpsertTarget
  pub action : UpsertAction
  pub shared : Assignments
  pub defaults : Assignments

-- `operation::Upsert`: the insert statement and its `upsert`
pub record Upsert : Type 0 where
  pub stmt : Insert
  pub clause : Option UpsertClause

-- `==` of lists of column ids
abbrev pub same_columns : List ColumnId → List ColumnId → Bool
same_columns [] [] = true
same_columns (a ∷ as') (b ∷ bs) = same_column a b && same_columns as' bs
same_columns _ _ = false

module _ (C : Codec) (debug_assignment : Assignment → String) where
  module _ (catalog : Catalog) where
    -- the text and the binds of the update action
    unfoldable pub upsert_statement :
        Insert → UpsertClause → Row → Bool → RecordId → Object → Result (String × Binds)
    unfolding created_sets shared_sets assign_clause
    upsert_statement insert clause row returns rid content = do
      created ←
          created_sets C debug_assignment insert.table clause.shared row 0 insert.columns ([], [])
      made ←
          shared_sets C debug_assignment catalog insert.table clause.defaults clause.shared created
      let (assigning, binds) = assign_clause C debug_assignment catalog made content
      ok (
        "UPSERT $rid " <> assigning <> (if returns then " RETURN AFTER" else ""),
        ("rid", to_value rid) ∷ binds,
      )

    module _ (lookup : Object → String → Option SurValue) where
      at_least_one : ℕ → ℕ
      at_least_one n = if leb 1 n then n else 1

      unfoldable pub finish : Option (List Column) → List SurValue → Result ExecResponse
      unfolding rows_to_records at_least_one
      finish none rows = ok (ExecResponse.count (at_least_one (length rows)))
      finish (some selected) rows = do
        records ← rows_to_records C lookup rows selected
        ok (value_stream records)

      -- the target was there already
      unfoldable pub nothing_created : Option (List Column) → ExecResponse
      nothing_created none = ExecResponse.count 0
      nothing_created (some selected) = value_stream []

      module _ {S T R : Type 0} (sdk : Sdk S T R) (display : Error → String) where
        unfoldable pub is_conflict : Error → Bool
        unfolding contains
        is_conflict e = contains (display e) "already exists"

        finished_rows : Option (List Column) → R → Result ExecResponse
        unfolding take_rows finish
        finished_rows returning r = do rows ← take_rows sdk r 0; finish returning rows

        unfoldable pub ignore_conflict : Option (List Column) → Result R → Result ExecResponse
        unfolding finished_rows nothing_created is_conflict
        ignore_conflict returning (ok r) = finished_rows returning r
        ignore_conflict returning (err e) =
            if is_conflict e then ok (nothing_created returning) else err e

        -- the target row's record id and content, and the columns to return
        abbrev pub Prepared : Type 0
        Prepared = RecordId × Object × Option (List Column)

        unfoldable pub prepare_row : Insert → Row → Result Prepared
        unfolding split_row pk_to_value record_id returning_columns
        prepare_row insert row = do
          (pk_values, content) ←
              split_row C "upsert" insert.table row 0 insert.columns ([], Object.end)
          rid ← record_id C insert.table (pk_to_value pk_values)
          returning ← returning_columns "upsert" insert.returning
          ok (rid, content, returning)

        unfoldable pub act :
            Connection S T
            → Insert
            → UpsertClause
            → Row
            → UpsertAction
            → Prepared
            → Result ExecResponse × Connection S T
        unfolding finished_rows upsert_statement ask ignore_conflict
        act conn insert clause row UpsertAction.update (rid, content, returning) =
            attempt conn (upsert_statement insert clause row (is_some returning) rid content)
              (λ made. ask sdk conn made (λ response. response >>= finished_rows returning))
        act conn insert clause row UpsertAction.ignore (rid, content, returning) =
            ask sdk conn (create_text (is_some returning), create_binds (to_value rid, content))
              (ignore_conflict returning)

        unfoldable pub upsert_source :
            Connection S T → Insert → UpsertClause → Source → Result ExecResponse × Connection S T
        unfolding act prepare_row
        upsert_source conn insert clause Source.other =
            (err (invalid_statement "SurrealDB upsert requires a VALUES source"), conn)
        upsert_source conn insert clause (Source.values (row ∷ [])) =
            attempt conn (prepare_row insert row) (act conn insert clause row clause.action)
        upsert_source conn insert clause (Source.values rows) =
            (err (invalid_statement "SurrealDB upsert requires exactly one row"), conn)

        -- the conflict columns are those of the primary key, in its order
        unfoldable pub targets_primary_key : Table → UpsertTarget → Result (Unit {0})
        targets_primary_key table UpsertTarget.other =
            err (invalid_statement "SurrealDB upsert target was not lowered to columns")
        targets_primary_key table (UpsertTarget.columns ids) =
            if same_columns ids
              (map (λ (column : Column). column.id) (catalog.primary_key_columns table))
            then ok tt
            else err
                (unsupported_feature "SurrealDB upsert only supports targeting the primary key")

        unfoldable pub upsert_clause :
            Connection S T → Insert → Option UpsertClause → Result ExecResponse × Connection S T
        unfolding upsert_source targets_primary_key
        upsert_clause conn insert none =
            (err (invalid_statement "upsert operation without clause"), conn)
        upsert_clause conn insert (some clause) =
            attempt conn (targets_primary_key insert.table clause.target)
              (λ _. upsert_source conn insert clause insert.source)

        unfoldable pub exec_upsert : Connection S T → Upsert → Result ExecResponse × Connection S T
        unfolding upsert_clause
        exec_upsert conn op = upsert_clause conn op.stmt op.clause
