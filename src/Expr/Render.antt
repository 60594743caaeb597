-- ===== src/Expr/Render.antt =====
-- `render_with_storage` of src/expr.rs. The binds are the state that it threads; on an error the
-- caller drops them.
use toasty_driver_surreal.Prelude.{
  String, ◌<>◌, Bool, true, false, List, [], ◌∷◌, Option, none, some, if◌then◌else◌,
}
use toasty_driver_surreal.Text.{join}
use toasty_driver_surreal.Error.{Result, ok, err, unsupported_feature, ◌>>=◌}
use toasty_driver_surreal.Schema.{Column, Table}
use toasty_driver_surreal.Value.{StmtType, DbType, Value, Values}
use toasty_driver_surreal.Value.Codec.{Codec}
use toasty_driver_surreal.Value.Encode.{to_surreal_with_storage}
use toasty_driver_surreal.Expr.{
  BinaryOp, eq, ne, gt, ge, lt, le, add, sub, Expr, Exprs, ExprContext, Binds, push, escape_ident,
  column_ref,
}

-- what a rendering step returns: its text, and the binds after it
abbrev pub Rendered : Type 0
Rendered = Result (String × Binds)

abbrev pub symbol : BinaryOp → String
symbol eq = "="
symbol ne = "!="
symbol gt = ">"
symbol ge = ">="
symbol lt = "<"
symbol le = "<="
symbol add = "+"
symbol sub = "-"

abbrev pub is_bool : StmtType → Bool
is_bool StmtType.bool = true
is_bool _ = false

abbrev pub is_eq_op : BinaryOp → Bool
is_eq_op eq = true
is_eq_op _ = false

-- the segments of a document path, each behind a dot
unfoldable pub push_segments : String → List String → String
push_segments path [] = path
push_segments path (segment ∷ rest) = push_segments (path <> "." <> escape_ident segment) rest

-- `rendered.unwrap_or_else(|_| "id")`, where the fallback's own binds are dropped
abbrev pub text_or_id : Rendered → String
text_or_id (ok (text, binds)) = text
text_or_id (err e) = "id"

-- `expression_storage_ty`
unfoldable pub expression_storage_ty : ExprContext → Expr → Option DbType
expression_storage_ty cx (Expr.reference r) = some (cx.resolve r).storage_ty
expression_storage_ty cx (Expr.json_extract base path) = expression_storage_ty cx base
expression_storage_ty cx _ = none

-- a bare column: a boolean one is a predicate
unfoldable pub reference_text : Table → Column → String
reference_text table column =
    let text = column_ref table column in if is_bool column.ty then text <> " = true" else text

-- the base of a document path: a column, or the rendering of anything else
unfoldable pub document_base : ExprContext → Table → Expr → Rendered → String
document_base cx table (Expr.reference r) rendered = column_ref table (cx.resolve r)
document_base cx table _ rendered = text_or_id rendered

-- the operand of `IS NONE`: a column is a bare field. A document path is what the renderer makes
-- of it, as any other operand is.
unfoldable pub null_operand : ExprContext → Table → Expr → Binds → Rendered → Rendered
null_operand cx table (Expr.reference r) binds rendered =
    ok (column_ref table (cx.resolve r), binds)
null_operand cx table _ binds rendered = rendered

unfoldable pub unsupported_any : ExprContext → BinaryOp → Rendered
unsupported_any cx op = err (
    unsupported_feature
      ("SurrealDB driver only supports `= ANY` list membership, got " <> cx.debug_op op))

module _ (C : Codec) where
  -- the placeholders of the items of a literal list
  unfoldable pub bind_items : Binds → Values → Option DbType → Result (List String × Binds)
  unfolding to_surreal_with_storage push
  bind_items binds Values.nil storage_ty = ok ([], binds)
  bind_items binds (Values.cons item items) storage_ty = do
    value ← to_surreal_with_storage C item storage_ty
    let pushed = push binds value
    (parts, after) ← bind_items pushed.1 items storage_ty
    ok (pushed.0 ∷ parts, after)

  unfoldable pub value_to_binds : Binds → Value → Option DbType → Rendered
  unfolding bind_items to_surreal_with_storage push
  value_to_binds binds (Value.list items) storage_ty = do
    (parts, after) ← bind_items binds items storage_ty
    ok ("[" <> join ", " parts <> "]", after)
  value_to_binds binds value storage_ty = do
    encoded ← to_surreal_with_storage C value storage_ty
    ok (push binds encoded)

module _ (C : Codec) (cx : ExprContext) (table : Table) where
  unfoldable mutual
    unfolding reference_text document_base null_operand value_to_binds unsupported_any
        expression_storage_ty push_segments

    pub render_with_storage : Expr → Binds → Option DbType → Rendered
    render_with_storage (Expr.binary_op op lhs rhs) binds storage_ty = do
      (l, b₁) ← render_with_storage lhs binds (expression_storage_ty cx rhs)
      (r, b₂) ← render_with_storage rhs b₁ (expression_storage_ty cx lhs)
      ok (l <> " " <> symbol op <> " " <> r, b₂)
    render_with_storage (Expr.all_of operands) binds storage_ty = do
      (parts, after) ← render_items operands binds none
      ok ("(" <> join " AND " parts <> ")", after)
    render_with_storage (Expr.any_of operands) binds storage_ty = do
      (parts, after) ← render_items operands binds none
      ok ("(" <> join " OR " parts <> ")", after)
    render_with_storage (Expr.not_of e) binds storage_ty = do
      (inner, after) ← render_with_storage e binds none
      ok ("!(" <> inner <> ")", after)
    render_with_storage (Expr.is_null e) binds storage_ty = do
      (inner, after) ← null_operand cx table e binds (render_with_storage e binds none)
      ok (inner <> " IS NONE", after)
    render_with_storage (Expr.between e low high) binds storage_ty = do
      (target, b₁) ← render_with_storage e binds none
      (l, b₂) ← render_with_storage low b₁ (expression_storage_ty cx e)
      (h, b₃) ← render_with_storage high b₂ (expression_storage_ty cx e)
      ok ("(" <> target <> " >= " <> l <> " AND " <> target <> " <= " <> h <> ")", b₃)
    render_with_storage (Expr.in_list e items) binds storage_ty = do
      (target, b₁) ← render_with_storage e binds none
      (l, b₂) ← render_with_storage items b₁ (expression_storage_ty cx e)
      ok (target <> " IN " <> l, b₂)
    render_with_storage (Expr.any_op op lhs rhs) binds storage_ty = elim (is_eq_op op) [
      | false ↦ unsupported_any cx op
      | true ↦ do
        (v, b₁) ← render_with_storage lhs binds (expression_storage_ty cx rhs)
        (l, b₂) ← render_with_storage rhs b₁ none
        ok (l <> " CONTAINS " <> v, b₂)
    ]
    render_with_storage (Expr.is_superset lhs rhs) binds storage_ty = do
      (l, b₁) ← render_with_storage lhs binds (expression_storage_ty cx rhs)
      (r, b₂) ← render_with_storage rhs b₁ (expression_storage_ty cx lhs)
      ok (l <> " CONTAINSALL " <> r, b₂)
    render_with_storage (Expr.intersects lhs rhs) binds storage_ty = do
      (l, b₁) ← render_with_storage lhs binds (expression_storage_ty cx rhs)
      (r, b₂) ← render_with_storage rhs b₁ (expression_storage_ty cx lhs)
      ok (l <> " CONTAINSANY " <> r, b₂)
    render_with_storage (Expr.length_of e) binds storage_ty = do
      (inner, after) ← render_with_storage e binds none
      ok ("array::len(" <> inner <> ")", after)
    render_with_storage (Expr.starts_with e prefix) binds storage_ty = do
      (target, b₁) ← render_with_storage e binds none
      (p, b₂) ← render_with_storage prefix b₁ (expression_storage_ty cx e)
      ok (
        "(" <> target <> " IS NOT NONE AND string::starts_with(" <> target <> ", " <> p <> "))",
        b₂,
      )
    render_with_storage (Expr.json_extract base path) binds storage_ty =
        ok (
          push_segments (document_base cx table base (render_with_storage base [] none)) path,
          binds,
        )
    render_with_storage (Expr.reference r) binds storage_ty =
        ok (reference_text table (cx.resolve r), binds)
    render_with_storage (Expr.value v) binds storage_ty = value_to_binds C binds v storage_ty
    render_with_storage (Expr.list items) binds storage_ty = do
      (parts, after) ← render_items items binds storage_ty
      ok ("[" <> join ", " parts <> "]", after)
    render_with_storage (Expr.other n) binds storage_ty = err (
        unsupported_feature
          ("SurrealDB driver cannot translate filter expression: " <> cx.debug_expr (Expr.other n)))

    -- the loops over operands and over list items
    pub render_items : Exprs → Binds → Option DbType → Result (List String × Binds)
    render_items Exprs.nil binds storage_ty = ok ([], binds)
    render_items (Exprs.cons e es) binds storage_ty = do
      (part, b₁) ← render_with_storage e binds storage_ty
      (parts, b₂) ← render_items es b₁ storage_ty
      ok (part ∷ parts, b₂)

  -- `render`
  unfoldable pub render : Expr → Binds → Rendered
  unfolding render_with_storage
  render e binds = render_with_storage e binds none
