-- ===== src/Migration/Alter/Fields.antt =====
-- Rows, what the changes of columns at once make of one, and a server that runs updates on it.
use toasty_driver_surreal.Prelude.{
  String, ◌<>◌, Bool, true, false, not, ◌&&◌, ◌||◌, List, [], ◌∷◌, Option, none, some, ◌≡◌, All,
  str_eq, if◌then◌else◌,
}
use toasty_driver_surreal.Schema.{Column, Table}
use toasty_driver_surreal.Expr.{escape_ident, is_primary_key}
use toasty_driver_surreal.Migration.Diff.{ColumnDiff}
use toasty_driver_surreal.Migration.Alter.Renames.{is_move}

-- A row, by the names of its fields; a field that is `NONE` is not there.
abbrev pub Fields : Type 0 → Type 0
Fields V = String → Option V

-- the field if it is there, or else the other
abbrev pub or_else {ℓ} : {A : Type ℓ} → Option A → Option A → Option A
or_else (some a) other = some a
or_else none other = other

module _ (previous next : Table) where
  -- The change reads or writes the field.
  unfoldable pub touches : ColumnDiff → String → Bool
  touches (ColumnDiff.drop column) name =
      not (is_primary_key previous column) && str_eq column.name name
  touches (ColumnDiff.alter p n) name =
      is_move previous next p n && (str_eq p.name name || str_eq n.name name)
  touches _ name = false

  abbrev pub Apart : ColumnDiff → ColumnDiff → Type 0
  Apart c d = (name : String) → touches c name ≡ true → touches d name ≡ false

  -- No two changes touch one field.
  abbrev pub AllApart : List ColumnDiff → Type 0
  AllApart [] = Unit
  AllApart (c ∷ changes) = All (Apart c) changes × AllApart changes

module _ {V : Type 0} where
  abbrev pub without : String → Fields V → Fields V
  without gone row name = if str_eq gone name then none else row name

  -- `SET to = from WHERE from IS NOT NONE`
  abbrev pub copied : String → String → Fields V → Fields V
  copied from to row name = if str_eq to name then or_else (row from) (row to) else row name

  unfoldable pub run_all : (String → Fields V → Fields V) → List String → Fields V → Fields V
  run_all run [] row = row
  run_all run (statement ∷ statements) row = run_all run statements (run statement row)

  module _ (previous next : Table) where
    -- The columns' changes all at once: each field is found in the row as it was.
    unfoldable pub migrated : List ColumnDiff → Fields V → Fields V
    migrated [] row name = row name
    migrated (ColumnDiff.drop column ∷ changes) row name =
        if not (is_primary_key previous column) && str_eq column.name name
        then none
        else migrated changes row name
    migrated (ColumnDiff.alter p n ∷ changes) row name =
        if is_move previous next p n && str_eq p.name name
        then none
        else if is_move previous next p n && str_eq n.name name
        then or_else (row p.name) (row n.name)
        else migrated changes row name
    migrated (_ ∷ changes) row name = migrated changes row name

    module _ (run : String → Fields V → Fields V) where
      -- The server runs the updates that the change asks for as SurrealQL says: `UNSET` removes the
      -- field, and `SET` copies it if it is there.
      abbrev pub Unsets : Column → Type 0
      Unsets column =
          (row : Fields V)
          → run
              ("UPDATE "
                <> escape_ident next.name
                <> " UNSET "
                <> escape_ident column.name
                <> " RETURN NONE")
              row
            ≡ without column.name row

      abbrev pub Moves : Column → Column → Type 0
      Moves p n =
          (row : Fields V)
          → run
              ("UPDATE "
                <> escape_ident next.name
                <> " SET "
                <> escape_ident n.name
                <> " = "
                <> escape_ident p.name
                <> " WHERE "
                <> escape_ident p.name
                <> " IS NOT NONE RETURN NONE")
              row
            ≡ copied p.name n.name row

      abbrev pub Runs : ColumnDiff → Type 0
      Runs (ColumnDiff.drop column) = Unsets column
      Runs (ColumnDiff.alter p n) = Moves p n × Unsets p
      Runs _ = Unit
