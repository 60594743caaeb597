-- ===== src/Op/Write/Assign.antt =====
-- The assignments of src/op/update_by_key.rs and src/op/upsert.rs: the parts of `stmt::Assignments`
-- that both render, and the text for each kind.
use toasty_driver_surreal.Prelude.{
  ℕ, String, ◌<>◌, Bool, true, false, List, [], ◌∷◌, Option, none, some, ◌==◌, ◌&&◌, any,
  if◌then◌else◌,
}
use toasty_driver_surreal.Error.{Result, ok, ◌>>=◌}
use toasty_driver_surreal.Schema.{Column}
use toasty_driver_surreal.Value.{Value, Values, SurValue, is_null}
use toasty_driver_surreal.Value.Codec.{Codec}
use toasty_driver_surreal.Value.Encode.{to_surreal_for_column}
use toasty_driver_surreal.Expr.{Expr, Binds, push, escape_ident}

-- `stmt::Assignment`, its kinds that the driver does not translate told apart by a number
pub data Assignment : Type 0 where
  set add subtract append : Expr → Assignment
  other : ℕ → Assignment

-- `stmt::Projection`
abbrev pub Projection : Type 0
Projection = List ℕ

-- `stmt::Assignments`, in the order of its iteration
abbrev pub Assignments : Type 0
Assignments = List (Projection × Assignment)

abbrev pub same_projection : Projection → Projection → Bool
same_projection [] [] = true
same_projection (i ∷ is) (j ∷ js) = (i == j) && same_projection is js
same_projection _ _ = false

-- `Assignments::contains`
abbrev pub assigns : Assignments → Projection → Bool
assigns assignments p = any (λ a. same_projection a.0 p) assignments

-- `Assignments::get`
abbrev pub assignment_to : Assignments → Projection → Option Assignment
assignment_to [] p = none
assignment_to ((q, a) ∷ rest) p = if same_projection q p then some a else assignment_to rest p

module _ (C : Codec) where
  -- a scalar that is appended is wrapped into a list
  unfoldable pub append_list : Value → Column → Result SurValue
  unfolding to_surreal_for_column
  append_list (Value.list items) column = to_surreal_for_column C (Value.list items) column
  append_list value column =
      to_surreal_for_column C (Value.list (Values.cons value Values.nil)) column

  -- what `text` makes of a new placeholder, when the value has a stored form
  abbrev pub with_placeholder :
      Result SurValue → Binds → (String → String) → Result (String × Binds)
  with_placeholder stored binds text = do
    v ← stored
    let (placeholder, after) = push binds v
    ok (text placeholder, after)

  unfoldable pub clear_or_set : Bool → Column → Value → Binds → Result (String × Binds)
  unfolding push to_surreal_for_column escape_ident
  clear_or_set true column value binds = ok (escape_ident column.name <> " = NONE", binds)
  clear_or_set false column value binds =
      with_placeholder (to_surreal_for_column C value column) binds
        (λ p. escape_ident column.name <> " = " <> p)

  -- an assignment of a literal: `NONE` for null
  unfoldable pub set_value : Column → Value → Binds → Result (String × Binds)
  unfolding clear_or_set
  set_value column value binds = clear_or_set (is_null value) column value binds
