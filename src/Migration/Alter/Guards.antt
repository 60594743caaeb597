-- ===== src/Migration/Alter/Guards.antt =====
-- Which changes of a table are guarded against.
use toasty_driver_surreal.Prelude.{
  String, ◌<>◌, Bool, true, false, not, ◌&&◌, List, [], ◌∷◌, ◌≡◌, refl, ap, ◌∙◌, is_empty,
  Bool-cases, inl, inr, str_eq, if◌then◌else◌,
}
use toasty_driver_surreal.Schema.{Column, Index, Table, Catalog, contains_column}
use toasty_driver_surreal.Expr.{is_primary_key}
use toasty_driver_surreal.Migration.Diff.{ColumnDiff, IndexDiff}
use toasty_driver_surreal.Migration.Statements.{push_unique, contains_text}
use toasty_driver_surreal.Migration.Alter.{
  Plan, empty_plan, guard, removal, definition, guard_type, rename, column_step, column_steps,
  remove_if_secondary, define_if_secondary, index_step, index_steps, remove_touching,
  define_touching, rebuild_indices, guard_key, alter_plan,
}
use toasty_driver_surreal.Migration.Alter.Safe.{
  is_safe, all, same_types, safe_column, safe_index, key_is_kept, type_changed-same_types,
  primary_key_changed-key_is_kept,
}

not-not : (b : Bool) → not (not b) ≡ b
not-not true = refl
not-not false = refl

is_empty-push_unique : (xs : List String) (s : String) → is_empty (push_unique xs s) ≡ false
unfolding push_unique
is_empty-push_unique [] s = refl
is_empty-push_unique (x ∷ xs) s = elim (Bool-cases (contains_text (x ∷ xs) s)) [
  | inl e ↦ rw e refl
  | inr e ↦ rw e refl
]

and_true : (b : Bool) → b ≡ (b && true)
and_true true = refl
and_true false = refl

and_false : (b : Bool) → false ≡ (b && false)
and_false true = refl
and_false false = refl

and_assoc : (a b c : Bool) → ((a && b) && c) ≡ (a && (b && c))
and_assoc true b c = refl
and_assoc false b c = refl

-- whether no guard is there yet
abbrev unguarded : Plan → Bool
unguarded plan = is_empty plan.guards

unguarded-guard : (plan : Plan) (reason : String) → unguarded (guard plan reason) ≡ false
unfolding guard
unguarded-guard plan reason = is_empty-push_unique plan.guards _

module _ (cat : Catalog) (previous next : Table) where
  unguarded-guard_type :
      (plan : Plan) (p n : Column)
      → unguarded (guard_type cat previous next plan p n) ≡ (unguarded plan && same_types p n)
  unfolding guard_type
  unguarded-guard_type plan p n = elim (Bool-cases (same_types p n)) [
    | inl e ↦ rw (type_changed-same_types p n, e) (and_true (unguarded plan))
    | inr e ↦
        rw (type_changed-same_types p n, e) (unguarded-guard plan _ ∙ and_false (unguarded plan))
  ]

  unguarded-rename :
      (plan : Plan) (p n : Column) → unguarded (rename cat previous next plan p n) ≡ unguarded plan
  unfolding rename
  unguarded-rename plan p n =
      elim (Bool-cases (
        not (str_eq p.name n.name)
        && (not (is_primary_key previous p) && not (is_primary_key next n)))) [
          | inl e ↦ rw e refl
          | inr e ↦ rw e refl
        ]

  unguarded-column_step :
      (plan : Plan) (c : ColumnDiff)
      → unguarded (column_step cat previous next plan c) ≡ (unguarded plan && safe_column c)
  unfolding column_step
  unguarded-column_step plan (ColumnDiff.add column) = and_true (unguarded plan)
  unguarded-column_step plan (ColumnDiff.drop column) =
      elim (Bool-cases (is_primary_key previous column)) [
        | inl e ↦ rw e (and_true (unguarded plan))
        | inr e ↦ rw e (and_true (unguarded plan))
      ]
  unguarded-column_step plan (ColumnDiff.alter p n) =
      unguarded-rename _ p n ∙ unguarded-guard_type plan p n
  unguarded-column_step plan ColumnDiff.other = unguarded-guard plan _ ∙ and_false (unguarded plan)

  unguarded-column_steps :
      (plan : Plan) (cs : List ColumnDiff)
      → unguarded (column_steps cat previous next plan cs) ≡ (unguarded plan && all safe_column cs)
  unfolding column_steps
  unguarded-column_steps plan [] = and_true (unguarded plan)
  unguarded-column_steps plan (c ∷ cs) =
      unguarded-column_steps (column_step cat previous next plan c) cs
      ∙ ap (λ b. b && all safe_column cs) (unguarded-column_step plan c)
      ∙ and_assoc (unguarded plan) (safe_column c) (all safe_column cs)

  unguarded-remove :
      (plan : Plan) (i : Index)
      → unguarded (remove_if_secondary cat previous next plan i) ≡ unguarded plan
  unfolding remove_if_secondary removal
  unguarded-remove plan i = elim (Bool-cases i.primary_key) [
    | inl e ↦ rw e refl
    | inr e ↦ rw e refl
  ]

  unguarded-define :
      (plan : Plan) (i : Index)
      → unguarded (define_if_secondary cat previous next plan i) ≡ unguarded plan
  unfolding define_if_secondary definition
  unguarded-define plan i = elim (Bool-cases i.primary_key) [
    | inl e ↦ rw e refl
    | inr e ↦ rw e refl
  ]

  unguarded-index_step :
      (plan : Plan) (i : IndexDiff)
      → unguarded (index_step cat previous next plan i) ≡ (unguarded plan && safe_index i)
  unfolding index_step
  unguarded-index_step plan (IndexDiff.create i) =
      unguarded-define plan i ∙ and_true (unguarded plan)
  unguarded-index_step plan (IndexDiff.drop i) = unguarded-remove plan i ∙ and_true (unguarded plan)
  unguarded-index_step plan (IndexDiff.alter p n) =
      unguarded-define _ n ∙ unguarded-remove plan p ∙ and_true (unguarded plan)
  unguarded-index_step plan IndexDiff.other = unguarded-guard plan _ ∙ and_false (unguarded plan)

  unguarded-index_steps :
      (plan : Plan) (is : List IndexDiff)
      → unguarded (index_steps cat previous next plan is) ≡ (unguarded plan && all safe_index is)
  unfolding index_steps
  unguarded-index_steps plan [] = and_true (unguarded plan)
  unguarded-index_steps plan (i ∷ is) =
      unguarded-index_steps (index_step cat previous next plan i) is
      ∙ ap (λ b. b && all safe_index is) (unguarded-index_step plan i)
      ∙ and_assoc (unguarded plan) (safe_index i) (all safe_index is)

  unguarded-remove_touching :
      (column : Column) (plan : Plan) (is : List Index)
      → unguarded (remove_touching cat previous next column plan is) ≡ unguarded plan
  unfolding remove_touching
  unguarded-remove_touching column plan [] = refl
  unguarded-remove_touching column plan (i ∷ is) =
      unguarded-remove_touching column
        (if contains_column i.columns column.id
          then remove_if_secondary cat previous next plan i
          else plan)
        is
      ∙ elim (Bool-cases (contains_column i.columns column.id)) [
        | inl e ↦ rw e (unguarded-remove plan i)
        | inr e ↦ rw e refl
      ]

  unguarded-define_touching :
      (column : Column) (plan : Plan) (is : List Index)
      → unguarded (define_touching cat previous next column plan is) ≡ unguarded plan
  unfolding define_touching
  unguarded-define_touching column plan [] = refl
  unguarded-define_touching column plan (i ∷ is) =
      unguarded-define_touching column
        (if contains_column i.columns column.id
          then define_if_secondary cat previous next plan i
          else plan)
        is
      ∙ elim (Bool-cases (contains_column i.columns column.id)) [
        | inl e ↦ rw e (unguarded-define plan i)
        | inr e ↦ rw e refl
      ]

  unguarded-rebuild :
      (plan : Plan) (rs : List (Column × Column))
      → unguarded (rebuild_indices cat previous next plan rs) ≡ unguarded plan
  unfolding rebuild_indices
  unguarded-rebuild plan [] = refl
  unguarded-rebuild plan ((p, n) ∷ rs) =
      unguarded-rebuild
        (define_touching cat previous next n
          (remove_touching cat previous next p plan previous.indices) next.indices)
        rs
      ∙ unguarded-define_touching n _ next.indices
      ∙ unguarded-remove_touching p plan previous.indices

  unguarded-guard_key :
      (columns : List ColumnDiff)
      → unguarded (guard_key cat previous next columns) ≡ key_is_kept cat previous next columns
  unfolding guard_key
  unguarded-guard_key columns = elim (Bool-cases (key_is_kept cat previous next columns)) [
    | inl e ↦ rw (primary_key_changed-key_is_kept cat previous next columns, e) refl
    | inr e ↦
        rw (primary_key_changed-key_is_kept cat previous next columns, e)
          (unguarded-guard empty_plan ("primary-key layout or type change on " <> next.name))
  ]

  -- The plan of an altered table has no guard exactly when its primary key keeps its columns and
  -- their types, no column changes its type, and no change is unknown.
  pub unguarded-alter_plan :
      (columns : List ColumnDiff) (indices : List IndexDiff)
      → is_empty (alter_plan cat previous next columns indices).guards
        ≡ is_safe cat previous next columns indices
  unfolding alter_plan
  unguarded-alter_plan columns indices =
      unguarded-rebuild _ _
      ∙ unguarded-index_steps _ indices
      ∙ ap (λ b. b && all safe_index indices)
          (unguarded-column_steps (guard_key cat previous next columns) columns
            ∙ ap (λ b. b && all safe_column columns) (unguarded-guard_key columns))
      ∙ and_assoc (key_is_kept cat previous next columns) (all safe_column columns)
          (all safe_index indices)
