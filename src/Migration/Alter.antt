-- ===== src/Migration/Alter.antt =====
-- `render_alter_table` and `primary_key_changed` of src/migration.rs.
pub mod Safe
pub mod Guards
pub mod Phases
pub mod Renames
pub mod Growth
pub mod Rebuilds
pub mod Fields
pub mod Moves
use mathlib.Core.Logic.{ite}
use native.Mathlib.Decide.{ℕ_discrete}
use toasty_driver_surreal.Prelude.{
  String, ◌<>◌, Bool, true, false, not, ◌||◌, ◌&&◌, Option, none, some, List, [], ◌∷◌, ◌++◌, find,
  length, ◌==◌, if◌then◌else◌, str_eq,
}
use toasty_driver_surreal.Value.{StmtType, DbType}
use toasty_driver_surreal.Schema.{
  ColumnId, Column, Index, Table, Catalog, same_column, contains_column,
}
use toasty_driver_surreal.Expr.{is_primary_key}
use toasty_driver_surreal.Migration.Diff.{ColumnDiff, IndexDiff}
use toasty_driver_surreal.Migration.Statements.{
  manual_guard, push_unique, define_index_statement, remove_index_statement, unset_statement,
  move_statement,
}

pub StmtType-discrete : Discrete StmtType
StmtType-discrete = hlevel ℕ_discrete

pub DbType-discrete : Discrete DbType
DbType-discrete = hlevel ℕ_discrete

-- `previous.ty != next.ty || previous.storage_ty != next.storage_ty`
unfoldable pub type_changed : Column → Column → Bool
unfolding StmtType-discrete DbType-discrete
type_changed previous next =
    ite (StmtType-discrete previous.ty next.ty) false true
    || ite (DbType-discrete previous.storage_ty next.storage_ty) false true

-- the `next` of the alteration of the column `id`, if there is one
find_altered : List ColumnDiff → ColumnId → Option Column
find_altered [] id = none
find_altered (ColumnDiff.alter previous next ∷ rest) id =
    if same_column previous.id id then some next else find_altered rest id
find_altered (_ ∷ rest) id = find_altered rest id

-- `or_else`
abbrev first_of_two : Option Column → Option Column → Option Column
first_of_two (some c) other = some c
first_of_two none other = other

unfoldable pub mapped_column : Table → List ColumnDiff → Column → Option Column
unfolding find_altered
mapped_column next columns previous_column =
    first_of_two (find_altered columns previous_column.id)
      (find (λ candidate. str_eq candidate.name previous_column.name) next.columns)

unfoldable pub key_column_changed : Option Column → Column → Column → Bool
unfolding type_changed
key_column_changed none previous next_pk = true
key_column_changed (some mapped) previous next_pk =
    not (same_column mapped.id next_pk.id) || type_changed previous mapped

-- `zip(..).any(..)`
any_changed : Table → List ColumnDiff → List Column → List Column → Bool
unfolding mapped_column key_column_changed
any_changed next columns (p ∷ ps) (n ∷ ns) =
    key_column_changed (mapped_column next columns p) p n || any_changed next columns ps ns
any_changed next columns _ _ = false

unfoldable pub primary_key_changed : Catalog → Table → Table → List ColumnDiff → Bool
unfolding any_changed
primary_key_changed cat previous next columns =
    not (length previous.primary_key == length next.primary_key)
    || any_changed next columns (cat.primary_key_columns previous) (cat.primary_key_columns next)

-- the local vectors of `render_alter_table`
pub record Plan : Type 0 where
  pub guards : List String
  pub index_removals : List String
  pub data_changes : List String
  pub index_definitions : List String
  pub renamed_columns : List (Column × Column)

abbrev pub empty_plan : Plan
empty_plan = record {
  guards = [];
  index_removals = [];
  data_changes = [];
  index_definitions = [];
  renamed_columns = [];
}

unfoldable pub guard : Plan → String → Plan
unfolding push_unique
guard plan reason = record plan { guards = push_unique plan.guards (manual_guard reason) }

unfoldable pub removal : Plan → String → Plan
unfolding push_unique
removal plan statement = record plan { index_removals = push_unique plan.index_removals statement }

unfoldable pub definition : Plan → String → Plan
unfolding push_unique
definition plan statement = record plan {
  index_definitions = push_unique plan.index_definitions statement;
}

module _ (cat : Catalog) (previous next : Table) where
  guard_type : Plan → Column → Column → Plan
  unfolding type_changed guard
  guard_type plan previous_column next_column =
      if type_changed previous_column next_column
      then guard plan ("column type change on " <> next.name <> "." <> next_column.name)
      else plan

  rename : Plan → Column → Column → Plan
  rename plan previous_column next_column =
      if not (str_eq previous_column.name next_column.name)
        && (not (is_primary_key previous previous_column) && not (is_primary_key next next_column))
      then record plan {
        renamed_columns = plan.renamed_columns ++ (previous_column, next_column) ∷ [];
        data_changes =
            plan.data_changes
            ++ move_statement next previous_column next_column
              ∷ unset_statement next previous_column
              ∷ [];
      }
      else plan

  unfoldable pub column_step : Plan → ColumnDiff → Plan
  unfolding guard_type rename guard
  column_step plan (ColumnDiff.add column) = plan
  column_step plan (ColumnDiff.drop column) =
      if not (is_primary_key previous column)
      then record plan { data_changes = plan.data_changes ++ unset_statement next column ∷ [] }
      else plan
  column_step plan (ColumnDiff.alter p n) = rename (guard_type plan p n) p n
  column_step plan ColumnDiff.other = guard plan ("unknown column change on " <> next.name)

  unfoldable pub column_steps : Plan → List ColumnDiff → Plan
  column_steps plan [] = plan
  column_steps plan (c ∷ cs) = column_steps (column_step plan c) cs

  unfoldable pub remove_if_secondary : Plan → Index → Plan
  unfolding removal
  remove_if_secondary plan index =
      if not index.primary_key then removal plan (remove_index_statement previous index) else plan

  unfoldable pub define_if_secondary : Plan → Index → Plan
  unfolding definition
  define_if_secondary plan index =
      if not index.primary_key
      then definition plan (define_index_statement cat next index false)
      else plan

  unfoldable pub index_step : Plan → IndexDiff → Plan
  unfolding remove_if_secondary define_if_secondary guard
  index_step plan (IndexDiff.create index) = define_if_secondary plan index
  index_step plan (IndexDiff.drop index) = remove_if_secondary plan index
  index_step plan (IndexDiff.alter p n) = define_if_secondary (remove_if_secondary plan p) n
  index_step plan IndexDiff.other = guard plan ("unknown index change on " <> next.name)

  unfoldable pub index_steps : Plan → List IndexDiff → Plan
  index_steps plan [] = plan
  index_steps plan (i ∷ is) = index_steps (index_step plan i) is

  -- the two inner loops over the indices that touch a renamed column
  unfoldable pub remove_touching : Column → Plan → List Index → Plan
  remove_touching column plan [] = plan
  remove_touching column plan (index ∷ rest) =
      remove_touching column
        (if contains_column index.columns column.id then remove_if_secondary plan index else plan)
        rest

  unfoldable pub define_touching : Column → Plan → List Index → Plan
  define_touching column plan [] = plan
  define_touching column plan (index ∷ rest) =
      define_touching column
        (if contains_column index.columns column.id then define_if_secondary plan index else plan)
        rest

  unfoldable pub rebuild_indices : Plan → List (Column × Column) → Plan
  unfolding remove_touching define_touching
  rebuild_indices plan [] = plan
  rebuild_indices plan ((p, n) ∷ rest) =
      rebuild_indices (define_touching n (remove_touching p plan previous.indices) next.indices)
        rest

  unfoldable pub guard_key : List ColumnDiff → Plan
  unfolding guard
  guard_key columns =
      if primary_key_changed cat previous next columns
      then guard empty_plan ("primary-key layout or type change on " <> next.name)
      else empty_plan

  unfoldable pub alter_plan : List ColumnDiff → List IndexDiff → Plan
  unfolding guard_key
  alter_plan columns indices =
      let diffed = index_steps (column_steps (guard_key columns) columns) indices in
      rebuild_indices diffed diffed.renamed_columns

-- the final `extend`s
abbrev pub ordered : Plan → List String
ordered plan = plan.guards ++ (plan.index_removals ++ (plan.index_definitions ++ plan.data_changes))

unfoldable pub render_alter_table :
    Catalog → Table → Table → List ColumnDiff → List IndexDiff → List String → List String
unfolding push_unique
render_alter_table cat previous next columns indices statements =
    if not (str_eq previous.name next.name)
    then push_unique statements
        (manual_guard ("table rename from " <> previous.name <> " to " <> next.name))
    else statements ++ ordered (alter_plan cat previous next columns indices)
