-- ===== src/Expr.antt =====
-- src/expr.rs: the filter expressions `stmt::Expr` that the driver translates, the bound
-- parameters, and the references to columns. The variants that the renderer's catch-all arm takes
-- are one constructor `other`; a reference is a number that the context resolves to a column.
pub mod Render
pub mod Fragment
pub mod Identifiers
pub mod Grouping
use toasty_driver_surreal.Prelude.{
  ℕ, zero, suc, String, ◌<>◌, Bool, true, false, List, [], ◌∷◌, ◌++◌, Option, none, some, leb,
  if◌then◌else◌, length,
}
use toasty_driver_surreal.Text.{replace, decimal}
use toasty_driver_surreal.Schema.{ColumnId, Column, Table, same_column, contains_column}
use toasty_driver_surreal.Value.{Value, SurValue}

pub data BinaryOp : Type 0 where
  eq ne gt ge lt le add sub : BinaryOp

mutual
  pub data Expr : Type 0 where
    binary_op : BinaryOp → Expr → Expr → Expr
    all_of any_of : Exprs → Expr
    not_of : Expr → Expr
    is_null : Expr → Expr
    between : Expr → Expr → Expr → Expr
    in_list : Expr → Expr → Expr
    any_op : BinaryOp → Expr → Expr → Expr
    is_superset intersects : Expr → Expr → Expr
    length_of : Expr → Expr
    starts_with : Expr → Expr → Expr
    json_extract : Expr → List String → Expr
    reference : ℕ → Expr
    value : Value → Expr
    list : Exprs → Expr
    other : ℕ → Expr

  pub data Exprs : Type 0 where
    nil : Exprs
    cons : Expr → Exprs → Exprs

-- What the renderer uses of toasty-core: `resolve_expr_reference(..).as_column_unwrap()` on the
-- target table, and the debug texts of its error messages.
pub record ExprContext : Type 0 where
  pub resolve : ℕ → Column
  pub debug_op : BinaryOp → String
  pub debug_expr : Expr → String

-- `Binds::values`
abbrev pub Binds : Type 0
Binds = List (String × SurValue)

-- `Binds::push`: the placeholder, and the list with the new value
unfoldable pub push : Binds → SurValue → String × Binds
push binds v = let name = "p" <> decimal (length binds) in ("$" <> name, binds ++ (name, v) ∷ [])

unfoldable pub push_named : Binds → String → SurValue → Binds
push_named binds name v = binds ++ (name, v) ∷ []

unfoldable pub escape_ident : String → String
unfolding replace
escape_ident name = "`" <> replace b'`' "``" name <> "`"

unfoldable pub is_primary_key : Table → Column → Bool
is_primary_key table column = contains_column table.primary_key column.id

-- `iter().position(|id| *id == target)`
unfoldable pub position : List ColumnId → ColumnId → Option ℕ
position [] target = none
position (id ∷ ids) target =
    if same_column id target
    then some 0
    else elim (position ids target) [ none ↦ none | some k ↦ some (suc k) ]

-- `unwrap_or(0)`
abbrev pub or_first : Option ℕ → ℕ
or_first none = 0
or_first (some k) = k

unfoldable pub column_ref : Table → Column → String
unfolding is_primary_key escape_ident position
column_ref table column =
    if is_primary_key table column
    then (if leb (length table.primary_key) 1
        then "record::id(id)"
        else "record::id(id)[" <> decimal (or_first (position table.primary_key column.id)) <> "]")
    else escape_ident column.name
