-- ===== src/Op/Upsert/Meaning.antt =====
-- What an upsert is to do to a record, without texts and placeholders: a change for each field, and
-- what the server makes of it in SurrealQL.
use toasty_driver_surreal.Prelude.{
  map, ℕ, suc, ◌+◌, String, ◌<>◌, true, false, List, [], ◌∷◌, ◌++◌, ◌||◌, Option, some, length,
}
use toasty_driver_surreal.Error.{Result, ok, err, invalid_statement, unsupported_feature, ◌>>=◌}
use toasty_driver_surreal.Schema.{Column, Table, Catalog}
use toasty_driver_surreal.Value.{Value, Values, SurValue, is_null}
use toasty_driver_surreal.Value.Codec.{Codec}
use toasty_driver_surreal.Value.Encode.{to_surreal_for_column}
use toasty_driver_surreal.Expr.{Expr, escape_ident, is_primary_key}
use toasty_driver_surreal.Expr.Fragment.Numbering.{param}
use toasty_driver_surreal.Op.Write.Keys.{Cell}
use toasty_driver_surreal.Op.Write.Assign.{Assignment, Assignments, assigns, assignment_to}

-- A change of a field, with values or with the placeholders that stand for them: the field is
-- removed, set, set if it is not there, or combined with a value, the default in its place if it is
-- not there.
pub data Change (A : Type 0) : Type 0 where
  clear : Change A
  put keep : A → Change A
  plus minus concat : A → A → Change A

abbrev pub Changes : Type 0
Changes = List (String × Change SurValue)

-- the texts in SurrealQL
abbrev pub print : String → Change String → String
print name Change.clear = name <> " = NONE"
print name (Change.put p) = name <> " = " <> p
print name (Change.keep p) = name <> " = " <> name <> " ?? " <> p
print name (Change.plus d p) = name <> " = (" <> name <> " ?? " <> d <> ") + " <> p
print name (Change.minus d p) = name <> " = (" <> name <> " ?? " <> d <> ") - " <> p
print name (Change.concat d p) =
    name <> " = array::concat(" <> name <> " ?? " <> d <> ", " <> p <> ")"

-- the values in the order of the text, and the placeholders from the k-th on
abbrev pub values : Change SurValue → List SurValue
values Change.clear = []
values (Change.put v) = v ∷ []
values (Change.keep v) = v ∷ []
values (Change.plus d v) = d ∷ v ∷ []
values (Change.minus d v) = d ∷ v ∷ []
values (Change.concat d v) = d ∷ v ∷ []

abbrev pub numbered : ℕ → Change SurValue → Change String
numbered k Change.clear = Change.clear
numbered k (Change.put v) = Change.put ("$" <> param k)
numbered k (Change.keep v) = Change.keep ("$" <> param k)
numbered k (Change.plus d v) = Change.plus ("$" <> param k) ("$" <> param (suc k))
numbered k (Change.minus d v) = Change.minus ("$" <> param k) ("$" <> param (suc k))
numbered k (Change.concat d v) = Change.concat ("$" <> param k) ("$" <> param (suc k))

-- the clauses of changes, with the placeholders from the k-th on
abbrev pub Item : Type 0
Item = String × Change String

abbrev pub items : ℕ → Changes → List Item
items k [] = []
items k ((name, c) ∷ cs) = (name, numbered k c) ∷ items (k + length (values c)) cs

abbrev pub printed : List Item → List String
printed = map (λ (item : Item). print (escape_ident item.0) item.1)

abbrev pub texts : ℕ → Changes → List String
texts k cs = printed (items k cs)

abbrev pub all_values : Changes → List SurValue
all_values [] = []
all_values ((name, c) ∷ cs) = values c ++ all_values cs

module _ (C : Codec) where
  -- of a source value: an existing one is kept; of a null nothing is to be done
  abbrev pub kept : Column → Value → Result (List (String × Change SurValue))
  kept column v = elim (is_null v) [
    | true ↦ ok []
    | false ↦ do s ← to_surreal_for_column C v column; ok ((column.name, Change.keep s) ∷ [])
  ]

  -- the columns that are neither in the key nor shared
  unfoldable pub created_changes : Table → Assignments → List Cell → Result Changes
  unfolding to_surreal_for_column is_primary_key
  created_changes table shared [] = ok []
  created_changes table shared ((column, v) ∷ cells) =
      elim (is_primary_key table column || assigns shared (column.id.index ∷ [])) [
        | true ↦ created_changes table shared cells
        | false ↦ do
          first ← kept column v
          rest ← created_changes table shared cells
          ok (first ++ rest)
      ]

  abbrev pub default_of : Column → Option Assignment → Result SurValue
  default_of column (some (Assignment.set (Expr.value v))) = to_surreal_for_column C v column
  default_of column _ =
      err (invalid_statement "SurrealDB shared upsert mutation requires a literal #[default] value")

  abbrev pub with_two :
      Column
      → Option Assignment
      → Result SurValue
      → (SurValue → SurValue → Change SurValue)
      → Result (Change SurValue)
  with_two column default stored combine = do
    d ← default_of column default
    v ← stored
    ok (combine d v)

  -- a list is appended as it is, another value as a list of one
  abbrev pub listed : Value → Value
  listed (Value.list vs) = Value.list vs
  listed v = Value.list (Values.cons v Values.nil)

  module _ (debug_assignment : Assignment → String) where
    unfoldable pub change_of : Column → Assignment → Option Assignment → Result (Change SurValue)
    unfolding to_surreal_for_column
    change_of column (Assignment.set (Expr.value v)) default = elim (is_null v) [
      | true ↦ ok Change.clear
      | false ↦ do s ← to_surreal_for_column C v column; ok (Change.put s)
    ]
    change_of column (Assignment.add (Expr.value v)) default =
        with_two column default (to_surreal_for_column C v column) Change.plus
    change_of column (Assignment.subtract (Expr.value v)) default =
        with_two column default (to_surreal_for_column C v column) Change.minus
    change_of column (Assignment.append (Expr.value v)) default =
        with_two column default (to_surreal_for_column C (listed v) column) Change.concat
    change_of column a default = err (
        unsupported_feature
          ("SurrealDB driver does not support shared upsert mutation: " <> debug_assignment a))

    module _ (catalog : Catalog) where
      unfoldable pub shared_changes : Table → Assignments → Assignments → Result Changes
      unfolding change_of
      shared_changes table defaults [] = ok []
      shared_changes table defaults ((projection, a) ∷ rest) = do
        let column = catalog.resolve table projection
        c ← change_of column a (assignment_to defaults projection)
        cs ← shared_changes table defaults rest
        ok ((column.name, c) ∷ cs)

      -- all the changes of an upsert: those of creation, and then the shared ones
      unfoldable pub upsert_changes : Table → Assignments → Assignments → List Cell → Result Changes
      unfolding created_changes shared_changes
      upsert_changes table shared defaults cells = do
        created ← created_changes table shared cells
        more ← shared_changes table defaults shared
        ok (created ++ more)
