-- ===== src/Migration/Alter/Renames.antt =====
-- Renamed columns: the updates of the rows, and the indices that are built again.
use mathlib.Core.List.{append_assoc, append-nil}
use toasty_driver_surreal.Prelude.{
  String, Bool, not, ◌&&◌, List, [], ◌∷◌, ◌++◌, ◌≡◌, refl, ap, sym, ◌∙◌, Bool-cases, inl, inr,
  str_eq, if◌then◌else◌,
}
use toasty_driver_surreal.Schema.{Column, Index, Table, Catalog, contains_column}
use toasty_driver_surreal.Expr.{is_primary_key}
use toasty_driver_surreal.Migration.Diff.{ColumnDiff, IndexDiff}
use toasty_driver_surreal.Migration.Statements.{unset_statement, move_statement}
use toasty_driver_surreal.Migration.Alter.{
  Plan, type_changed, primary_key_changed, guard, removal, definition, guard_type, rename,
  column_step, column_steps, remove_if_secondary, define_if_secondary, index_step, index_steps,
  remove_touching, define_touching, rebuild_indices, guard_key, alter_plan,
}

-- The plan's rows part: which columns move, and the updates.
abbrev Rows : Type 0
Rows = List (Column × Column) × List String

abbrev rows : Plan → Rows
rows plan = (plan.renamed_columns, plan.data_changes)

infixl 40 ◌then◌
abbrev ◌then◌ : Rows → Rows → Rows
a then b = (a.0 ++ b.0, a.1 ++ b.1)

module _ (previous next : Table) where
  -- a column outside both primary keys gets another name
  abbrev pub is_move : Column → Column → Bool
  is_move p n =
      not (str_eq p.name n.name) && (not (is_primary_key previous p) && not (is_primary_key next n))

  -- what one change of a column asks of the rows
  abbrev pub row_changes : ColumnDiff → Rows
  row_changes (ColumnDiff.drop column) =
      if not (is_primary_key previous column)
      then ([], unset_statement next column ∷ [])
      else ([], [])
  row_changes (ColumnDiff.alter p n) =
      if is_move p n
      then ((p, n) ∷ [], move_statement next p n ∷ unset_statement next p ∷ [])
      else ([], [])
  row_changes _ = ([], [])

  abbrev pub all_row_changes : List ColumnDiff → Rows
  all_row_changes [] = ([], [])
  all_row_changes (c ∷ cs) = row_changes c then all_row_changes cs

nothing_more : (r : Rows) → r ≡ (r then ([], []))
nothing_more r =
    ap (λ x. (x, r.1)) (sym (append-nil r.0)) ∙ ap (λ x. (r.0 ++ [], x)) (sym (append-nil r.1))

then_assoc : (a b c : Rows) → ((a then b) then c) ≡ (a then (b then c))
then_assoc a b c = rw (append_assoc, append_assoc) refl

module _ (cat : Catalog) (previous next : Table) where
  rows-column_step :
      (plan : Plan) (c : ColumnDiff)
      → rows (column_step cat previous next plan c) ≡ (rows plan then row_changes previous next c)
  unfolding column_step guard_type rename guard
  rows-column_step plan (ColumnDiff.add column) = nothing_more (rows plan)
  rows-column_step plan (ColumnDiff.drop column) =
      elim (Bool-cases (is_primary_key previous column)) [
        | inl e ↦ rw e (nothing_more (rows plan))
        | inr e ↦ rw e (
            ap (λ x. (x, plan.data_changes ++ unset_statement next column ∷ []))
              (sym (append-nil plan.renamed_columns)))
      ]
  rows-column_step plan (ColumnDiff.alter p n) = elim (Bool-cases (is_move previous next p n)) [
    | inl e ↦ elim (Bool-cases (type_changed p n)) [
      | inl t ↦ rw (e, t) refl
      | inr t ↦ rw (e, t) refl
    ]
    | inr e ↦ elim (Bool-cases (type_changed p n)) [
      | inl t ↦ rw (e, t) (nothing_more (rows plan))
      | inr t ↦ rw (e, t) (nothing_more (rows plan))
    ]
  ]
  rows-column_step plan ColumnDiff.other = nothing_more (rows plan)

  rows-column_steps :
      (cs : List ColumnDiff) (plan : Plan)
      → rows (column_steps cat previous next plan cs)
        ≡ (rows plan then all_row_changes previous next cs)
  unfolding column_steps
  rows-column_steps [] plan = nothing_more (rows plan)
  rows-column_steps (c ∷ cs) plan =
      rows-column_steps cs (column_step cat previous next plan c)
      ∙ ap (λ r. r then all_row_changes previous next cs) (rows-column_step plan c)
      ∙ then_assoc (rows plan) (row_changes previous next c) (all_row_changes previous next cs)

  rows-remove :
      (plan : Plan) (i : Index) → rows (remove_if_secondary cat previous next plan i) ≡ rows plan
  unfolding remove_if_secondary removal
  rows-remove plan i = elim (Bool-cases i.primary_key) [ inl e ↦ rw e refl | inr e ↦ rw e refl ]

  rows-define :
      (plan : Plan) (i : Index) → rows (define_if_secondary cat previous next plan i) ≡ rows plan
  unfolding define_if_secondary definition
  rows-define plan i = elim (Bool-cases i.primary_key) [ inl e ↦ rw e refl | inr e ↦ rw e refl ]

  rows-index_steps :
      (is : List IndexDiff) (plan : Plan) → rows (index_steps cat previous next plan is) ≡ rows plan
  unfolding index_steps index_step guard
  rows-index_steps [] plan = refl
  rows-index_steps (IndexDiff.create i ∷ is) plan = rows-index_steps is _ ∙ rows-define plan i
  rows-index_steps (IndexDiff.drop i ∷ is) plan = rows-index_steps is _ ∙ rows-remove plan i
  rows-index_steps (IndexDiff.alter p n ∷ is) plan =
      rows-index_steps is _ ∙ rows-define _ n ∙ rows-remove plan p
  rows-index_steps (IndexDiff.other ∷ is) plan = rows-index_steps is _

  rows-remove_touching :
      (is : List Index) (column : Column) (plan : Plan)
      → rows (remove_touching cat previous next column plan is) ≡ rows plan
  unfolding remove_touching
  rows-remove_touching [] column plan = refl
  rows-remove_touching (i ∷ is) column plan =
      rows-remove_touching is column _ ∙ elim (Bool-cases (contains_column i.columns column.id)) [
        | inl e ↦ rw e (rows-remove plan i)
        | inr e ↦ rw e refl
      ]

  rows-define_touching :
      (is : List Index) (column : Column) (plan : Plan)
      → rows (define_touching cat previous next column plan is) ≡ rows plan
  unfolding define_touching
  rows-define_touching [] column plan = refl
  rows-define_touching (i ∷ is) column plan =
      rows-define_touching is column _ ∙ elim (Bool-cases (contains_column i.columns column.id)) [
        | inl e ↦ rw e (rows-define plan i)
        | inr e ↦ rw e refl
      ]

  rows-rebuild :
      (rs : List (Column × Column)) (plan : Plan)
      → rows (rebuild_indices cat previous next plan rs) ≡ rows plan
  unfolding rebuild_indices
  rows-rebuild [] plan = refl
  rows-rebuild ((p, n) ∷ rs) plan =
      rows-rebuild rs _
      ∙ rows-define_touching next.indices n _
      ∙ rows-remove_touching previous.indices p plan

  rows-guard_key :
      (columns : List ColumnDiff) → rows (guard_key cat previous next columns) ≡ ([], [])
  unfolding guard_key guard
  rows-guard_key columns = elim (Bool-cases (primary_key_changed cat previous next columns)) [
    | inl e ↦ rw e refl
    | inr e ↦ rw e refl
  ]

  pub rows_before_rebuild :
      (columns : List ColumnDiff) (indices : List IndexDiff)
      → rows (
          index_steps cat previous next
            (column_steps cat previous next (guard_key cat previous next columns) columns)
            indices)
        ≡ all_row_changes previous next columns
  rows_before_rebuild columns indices =
      rows-index_steps indices _
      ∙ rows-column_steps columns (guard_key cat previous next columns)
      ∙ ap (λ r. r then all_row_changes previous next columns) (rows-guard_key columns)

  -- The updates of an altered table are those that its column changes ask for, one after another
  -- in the order of the difference: a column outside the key that is dropped is unset, one that is
  -- renamed is copied to its new name and then unset, whatever else changes and whatever the
  -- indices are; and the columns recorded as renamed are those that are moved so.
  pub alter_plan-all_row_changes :
      (columns : List ColumnDiff) (indices : List IndexDiff)
      → ((alter_plan cat previous next columns indices).renamed_columns
          ≡ (all_row_changes previous next columns).0)
        × ((alter_plan cat previous next columns indices).data_changes
            ≡ (all_row_changes previous next columns).1)
  unfolding alter_plan
  alter_plan-all_row_changes columns indices =
      let e = rows-rebuild _ _ ∙ rows_before_rebuild columns indices in
      (ap (λ (r : Rows). r.0) e, ap (λ (r : Rows). r.1) e)
