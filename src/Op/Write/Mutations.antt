-- ===== src/Op/Write/Mutations.antt =====
-- The assignments of an upsert: what is set on creation only, and the mutations that creation and
-- update share, with their defaults.
use toasty_driver_surreal.Prelude.{
  ℕ, suc, String, ◌<>◌, Bool, true, false, List, [], ◌∷◌, ◌++◌, ◌||◌, Option, some,
}
use toasty_driver_surreal.Text.{join}
use toasty_driver_surreal.Error.{Result, ok, err, invalid_statement, unsupported_feature, ◌>>=◌}
use toasty_driver_surreal.Schema.{Column, Table, Catalog}
use toasty_driver_surreal.Value.{Value, SurValue, Object, is_null}
use toasty_driver_surreal.Value.Codec.{Codec}
use toasty_driver_surreal.Value.Encode.{to_surreal_for_column}
use toasty_driver_surreal.Expr.{Expr, Binds, push, escape_ident, is_primary_key}
use toasty_driver_surreal.Op.Write.{Row, row_value}
use toasty_driver_surreal.Op.Write.Assign.{
  Assignment, Assignments, assigns, assignment_to, append_list, with_placeholder, set_value,
}

module _ (C : Codec) (debug_assignment : Assignment → String) where
  unfoldable pub default_placeholder : Column → Option Assignment → Binds → Result (String × Binds)
  unfolding push to_surreal_for_column
  default_placeholder column (some (Assignment.set (Expr.value v))) binds =
      with_placeholder C (to_surreal_for_column C v column) binds (λ p. p)
  default_placeholder column _ binds =
      err (invalid_statement "SurrealDB shared upsert mutation requires a literal #[default] value")

  -- an operator on the value or the default: the default's placeholder comes first
  unfoldable pub with_default :
      Column
      → Option Assignment
      → Result SurValue
      → Binds
      → (String → String → String)
      → Result (String × Binds)
  unfolding default_placeholder push
  with_default column default stored binds text = do
    (d, defaulted) ← default_placeholder column default binds
    with_placeholder C stored defaulted (text d)

  unfoldable pub unsupported_mutation : Assignment → Result (String × Binds)
  unsupported_mutation a = err (
      unsupported_feature
        ("SurrealDB driver does not support shared upsert mutation: " <> debug_assignment a))

  unfoldable pub render_shared_mutation :
      Column → Assignment → Option Assignment → Binds → Result (String × Binds)
  unfolding set_value with_default append_list to_surreal_for_column escape_ident
      unsupported_mutation
  render_shared_mutation column (Assignment.set (Expr.value v)) default binds =
      set_value C column v binds
  render_shared_mutation column (Assignment.add (Expr.value v)) default binds =
      let name = escape_ident column.name in
      with_default column default (to_surreal_for_column C v column) binds
        (λ d p. name <> " = (" <> name <> " ?? " <> d <> ") + " <> p)
  render_shared_mutation column (Assignment.subtract (Expr.value v)) default binds =
      let name = escape_ident column.name in
      with_default column default (to_surreal_for_column C v column) binds
        (λ d p. name <> " = (" <> name <> " ?? " <> d <> ") - " <> p)
  render_shared_mutation column (Assignment.append (Expr.value v)) default binds =
      let name = escape_ident column.name in
      with_default column default (append_list C v column) binds
        (λ d p. name <> " = array::concat(" <> name <> " ?? " <> d <> ", " <> p <> ")")
  render_shared_mutation column a default binds = unsupported_mutation a

  -- whether the first loop passes over a column
  abbrev pub skipped : Table → Assignments → Column → Bool
  skipped table shared column = is_primary_key table column || assigns shared (column.id.index ∷ [])

  -- an assignment for creation only: an existing value is kept
  unfoldable pub created_value : Column → Value → List String × Binds → Result (List String × Binds)
  unfolding push to_surreal_for_column escape_ident
  created_value column value (sets, binds) =
      let name = escape_ident column.name in
      elim (is_null value) [
        | true ↦ ok (sets, binds)
        | false ↦ do
          (text, after) ←
              with_placeholder C (to_surreal_for_column C value column) binds
                (λ p. name <> " = " <> name <> " ?? " <> p)
          ok (sets ++ text ∷ [], after)
      ]

  -- the loop over the columns, from the `i`-th on
  unfoldable pub created_sets :
      Table
      → Assignments
      → Row
      → ℕ
      → List Column
      → List String × Binds
      → Result (List String × Binds)
  unfolding is_primary_key row_value created_value
  created_sets table shared row i [] made = ok made
  created_sets table shared row i (column ∷ rest) made = elim (skipped table shared column) [
    | true ↦ created_sets table shared row (suc i) rest made
    | false ↦ do
      v ← row_value "upsert" row i
      next ← created_value column v made
      created_sets table shared row (suc i) rest next
  ]

  module _ (catalog : Catalog) where
    -- the loop over the shared assignments
    unfoldable pub shared_sets :
        Table → Assignments → Assignments → List String × Binds → Result (List String × Binds)
    unfolding render_shared_mutation
    shared_sets table defaults [] made = ok made
    shared_sets table defaults ((projection, a) ∷ rest) (sets, binds) = do
      (text, after) ←
          render_shared_mutation (catalog.resolve table projection) a
            (assignment_to defaults projection) binds
      shared_sets table defaults rest (sets ++ text ∷ [], after)

    -- the clause that assigns; without one the content is merged
    unfoldable pub assign_clause : List String × Binds → Object → String × Binds
    unfolding push
    assign_clause ([], binds) content =
        let (placeholder, after) = push binds (SurValue.object content) in
        ("MERGE " <> placeholder, after)
    assign_clause (set ∷ sets, binds) content = ("SET " <> join ", " (set ∷ sets), binds)
