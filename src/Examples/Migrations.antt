-- ===== src/Examples/Migrations.antt =====
-- The theorems on migrations at concrete inputs.
use toasty_driver_surreal.Prelude.{
  ℕ, ◌<>◌, some, none, ap, ◌∙◌, inr, All, Bool-cases, eq_iff, if◌then◌else◌, String, true, false,
  not, List, [], ◌∷◌, ◌≡◌, refl, ◌&&◌, is_empty, inl, str_eq,
}
use toasty_driver_surreal.Text.{replace}
use toasty_driver_surreal.Expr.{is_primary_key, escape_ident}
use toasty_driver_surreal.Migration.Diff.{ColumnDiff, IndexDiff, TableDiff}
use toasty_driver_surreal.Migration.Statements.{
  manual_guard, remove_index_statement, define_index_statement, move_statement, unset_statement,
}
use toasty_driver_surreal.Migration.Alter.{alter_plan}
use toasty_driver_surreal.Migration.Alter.Guards.{unguarded-alter_plan}
use toasty_driver_surreal.Migration.Alter.Safe.{is_safe}
use toasty_driver_surreal.Migration.Alter.Phases.{IsPhased, alter_plan-IsPhased}
use toasty_driver_surreal.Migration.Alter.Renames.{
  is_move, all_row_changes, alter_plan-all_row_changes,
}
use toasty_driver_surreal.Migration.Alter.Fields.{
  Fields, copied, without, Apart, Runs, touches, migrated, run_all,
}
use toasty_driver_surreal.Migration.Alter.Moves.{run_all-migrated}
use toasty_driver_surreal.Migration.Alter.Growth.{Removes, Defines}
use toasty_driver_surreal.Migration.Alter.Rebuilds.{alter_plan-Removes, alter_plan-Defines}
use toasty_driver_surreal.Migration.Generate.{table_steps, generate}
use toasty_driver_surreal.Migration.Generate.First.{
  is_throw, first, one_after_another, generate-alter, table_steps-order,
}
use toasty_driver_surreal.Migration.Statements.Reason.{read_literal, read_literal-manual_guard}
use toasty_driver_surreal.Examples.Samples.{
  catalog, users, users_after, members, profile, biography, sizes, profile_index, column_changes,
}

unguarded-alter_plan_example :
    is_empty (alter_plan catalog users users_after column_changes (IndexDiff.other ∷ [])).guards
    ≡ is_safe catalog users users_after column_changes (IndexDiff.other ∷ [])
unguarded-alter_plan_example =
    unguarded-alter_plan catalog users users_after column_changes (IndexDiff.other ∷ [])

alter_plan-IsPhased_example : IsPhased (alter_plan catalog users users_after column_changes [])
alter_plan-IsPhased_example = alter_plan-IsPhased catalog users users_after column_changes []

alter_plan-all_row_changes_example :
    ((alter_plan catalog users users_after column_changes []).renamed_columns
      ≡ (all_row_changes users users_after column_changes).0)
    × ((alter_plan catalog users users_after column_changes []).data_changes
        ≡ (all_row_changes users users_after column_changes).1)
alter_plan-all_row_changes_example =
    alter_plan-all_row_changes catalog users users_after column_changes []

profile-is_move : is_move users users_after profile biography ≡ true
unfolding is_primary_key
profile-is_move = refl

alter_plan-Removes_example :
    Removes
      (alter_plan catalog users users_after column_changes [])
      (remove_index_statement users profile_index)
alter_plan-Removes_example =
    alter_plan-Removes catalog users users_after column_changes [] profile biography profile_index
      (inl refl) profile-is_move (inl refl) (refl, refl)

alter_plan-Defines_example :
    Defines
      (alter_plan catalog users users_after column_changes [])
      (define_index_statement catalog users_after profile_index false)
alter_plan-Defines_example =
    alter_plan-Defines catalog users users_after column_changes [] profile biography profile_index
      (inl refl) profile-is_move (inl refl) (refl, refl)

generate-alter_example :
    is_throw (first (generate catalog (TableDiff.alter users members column_changes [] ∷ [])))
    ≡ not (str_eq "users" "members" && is_safe catalog users members column_changes [])
generate-alter_example = generate-alter catalog users members column_changes []

abbrev three_tables : List TableDiff
three_tables =
    TableDiff.drop members
    ∷ TableDiff.alter users members [] []
    ∷ TableDiff.alter users members [] []
    ∷ []

table_steps-order_example :
    table_steps catalog [] three_tables ≡ one_after_another catalog [] three_tables
table_steps-order_example = table_steps-order catalog three_tables

read_literal-manual_guard_example :
    (body : String) × (manual_guard "column type change on o'neil.a\\b"
      ≡ "THROW 'manual migration required: " <> body)
    × (read_literal body ≡ some ("column type change on o'neil.a\\b", ""))
read_literal-manual_guard_example = read_literal-manual_guard "column type change on o'neil.a\\b"

-- A server that knows the statements of the example.
abbrev known : String → Fields ℕ → Fields ℕ
known statement row =
    if str_eq statement (move_statement users_after profile biography)
    then copied "profile" "biography" row
    else if str_eq statement (unset_statement users_after profile)
    then without "profile" row
    else if str_eq statement (unset_statement users_after sizes)
    then without "sizes" row
    else row

known-Runs : All (Runs users users_after known) column_changes
unfolding move_statement unset_statement escape_ident replace
known-Runs = ((λ row. refl, λ row. refl), (λ row. refl, tt))

renamed-Apart : Apart users users_after (ColumnDiff.alter profile biography) (ColumnDiff.drop sizes)
unfolding touches is_primary_key
renamed-Apart name t = elim (Bool-cases (str_eq "sizes" name)) [
  | inl e ↦
      let named : touches users users_after (ColumnDiff.alter profile biography) "sizes" ≡ true =
        ap (touches users users_after (ColumnDiff.alter profile biography))
          ((eq_iff "sizes" name).0 e)
        ∙ t in
      cc
  | inr e ↦ e
]

abbrev stored_row : Fields ℕ
stored_row name =
    if str_eq name "profile" then some 5 else if str_eq name "sizes" then some 6 else none

run_all-migrated_example :
    run_all known (alter_plan catalog users users_after column_changes []).data_changes stored_row
    ≡ migrated users users_after column_changes stored_row
run_all-migrated_example =
    run_all-migrated users users_after known catalog column_changes [] stored_row
      ((renamed-Apart, tt), (tt, tt)) known-Runs

-- Renames that form a chain are not apart: the value of `biography` is lost, `sizes` has that of
-- `profile`, and the new `biography` is gone.
abbrev chain : List ColumnDiff
chain = ColumnDiff.alter profile biography ∷ ColumnDiff.alter biography sizes ∷ []

abbrev known_chain : String → Fields ℕ → Fields ℕ
known_chain statement row =
    if str_eq statement (move_statement users_after profile biography)
    then copied "profile" "biography" row
    else if str_eq statement (unset_statement users_after profile)
    then without "profile" row
    else if str_eq statement (move_statement users_after biography sizes)
    then copied "biography" "sizes" row
    else if str_eq statement (unset_statement users_after biography)
    then without "biography" row
    else row

abbrev chained_row : Fields ℕ
chained_row name =
    if str_eq name "profile" then some 5 else if str_eq name "biography" then some 6 else none

abbrev after_chain : Fields ℕ
after_chain =
    run_all known_chain (alter_plan catalog users users_after chain []).data_changes chained_row

chain-loses :
    (after_chain "biography" ≡ none)
    × (after_chain "sizes" ≡ some 5)
    × (migrated users users_after chain chained_row "biography" ≡ some 5)
    × (migrated users users_after chain chained_row "sizes" ≡ some 6)
unfolding run_all migrated is_primary_key move_statement unset_statement escape_ident replace
chain-loses =
    let updates = (alter_plan-all_row_changes catalog users users_after chain []).1 in
    (
      ap (λ statements. run_all known_chain statements chained_row "biography") updates,
      ap (λ statements. run_all known_chain statements chained_row "sizes") updates,
      refl,
      refl,
    )
