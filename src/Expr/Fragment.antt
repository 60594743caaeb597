-- ===== src/Expr/Fragment.antt =====
-- A reference description of the renderer with no state: an expression is its literals in order,
-- and a text that depends only on the number of the first placeholder. The renderer, which threads
-- the binds, is proved equal to it.
pub mod Refines
pub mod Numbering
pub mod Named
use toasty_driver_surreal.Prelude.{
  ℕ, ◌+◌, String, ◌<>◌, true, false, List, [], ◌∷◌, ◌++◌, Option, none, length,
}
use toasty_driver_surreal.Text.{join, decimal}
use toasty_driver_surreal.Error.{Result, ok, err, unsupported_feature, ◌>>=◌}
use toasty_driver_surreal.Schema.{Table}
use toasty_driver_surreal.Value.{DbType, Value, Values, SurValue}
use toasty_driver_surreal.Value.Codec.{Codec}
use toasty_driver_surreal.Value.Encode.{to_surreal_with_storage}
use toasty_driver_surreal.Expr.{Expr, Exprs, ExprContext, Binds, column_ref}
use toasty_driver_surreal.Expr.Render.{
  symbol, is_eq_op, push_segments, expression_storage_ty, reference_text, unsupported_any,
}

pub record Fragment {ℓ} (A : Type ℓ) : Type ℓ where
  pub values : List SurValue
  pub text : ℕ → A

module _ {ℓ κ μ} {A : Type ℓ} {B : Type κ} {C : Type μ} where
  -- two fragments in a row: the second is numbered after the first
  abbrev pub pair : (A → B → C) → Fragment A → Fragment B → Fragment C
  pair f a b = record {
    values = a.values ++ b.values;
    text = λ n. f (a.text n) (b.text (n + length a.values));
  }

module _ {ℓ κ} {A : Type ℓ} {B : Type κ} where
  abbrev pub mapped : (A → B) → Fragment A → Fragment B
  mapped f a = record { values = a.values; text = λ n. f (a.text n) }

abbrev pub closed {ℓ} : {A : Type ℓ} → A → Fragment A
closed a = record { values = []; text = λ n. a }

abbrev pub placeholder : SurValue → Fragment String
placeholder v = record { values = v ∷ []; text = λ n. "$" <> ("p" <> decimal n) }

-- the binds with the values behind them, under the next names
unfoldable pub number_onto : Binds → List SurValue → Binds
number_onto binds [] = binds
number_onto binds (v ∷ vs) = number_onto (binds ++ ("p" <> decimal (length binds), v) ∷ []) vs

-- a fragment put to work behind some binds
unfoldable pub emit {ℓ} : {A : Type ℓ} → Fragment A → Binds → A × Binds
emit f binds = (f.text (length binds), number_onto binds f.values)

module _ (C : Codec) where
  denote_items : Values → Option DbType → Result (Fragment (List String))
  denote_items Values.nil storage_ty = ok (closed [])
  denote_items (Values.cons item items) storage_ty = do
    v ← to_surreal_with_storage C item storage_ty
    rest ← denote_items items storage_ty
    ok (pair (λ p ps. p ∷ ps) (placeholder v) rest)

  denote_value : Value → Option DbType → Result (Fragment String)
  unfolding denote_items
  denote_value (Value.list items) storage_ty = do
    parts ← denote_items items storage_ty
    ok (mapped (λ ps. "[" <> join ", " ps <> "]") parts)
  denote_value value storage_ty = do
    encoded ← to_surreal_with_storage C value storage_ty
    ok (placeholder encoded)

-- the text that a document path makes of its base, which loses the base's literals
abbrev base_text : ExprContext → Table → Expr → Result (Fragment String) → String
base_text cx table (Expr.reference r) f = column_ref table (cx.resolve r)
base_text cx table _ (ok f) = f.text 0
base_text cx table _ (err e) = "id"

abbrev operand : ExprContext → Table → Expr → Result (Fragment String) → Result (Fragment String)
operand cx table (Expr.reference r) f = ok (closed (column_ref table (cx.resolve r)))
operand cx table _ f = f

module _ (C : Codec) (cx : ExprContext) (table : Table) where
  unfoldable mutual
    unfolding denote_value

    pub denote : Expr → Option DbType → Result (Fragment String)
    denote (Expr.binary_op op lhs rhs) storage_ty = do
      l ← denote lhs (expression_storage_ty cx rhs)
      r ← denote rhs (expression_storage_ty cx lhs)
      ok (pair (λ a b. a <> " " <> symbol op <> " " <> b) l r)
    denote (Expr.all_of operands) storage_ty = do
      parts ← denote_all operands none
      ok (mapped (λ ps. "(" <> join " AND " ps <> ")") parts)
    denote (Expr.any_of operands) storage_ty = do
      parts ← denote_all operands none
      ok (mapped (λ ps. "(" <> join " OR " ps <> ")") parts)
    denote (Expr.not_of e) storage_ty = do
      inner ← denote e none
      ok (mapped (λ a. "!(" <> a <> ")") inner)
    denote (Expr.is_null e) storage_ty = do
      inner ← operand cx table e (denote e none)
      ok (mapped (λ a. a <> " IS NONE") inner)
    denote (Expr.between e low high) storage_ty = do
      target ← denote e none
      l ← denote low (expression_storage_ty cx e)
      h ← denote high (expression_storage_ty cx e)
      ok (
          pair {A = String → String} (λ f c. f c)
            (pair (λ a b c. "(" <> a <> " >= " <> b <> " AND " <> a <> " <= " <> c <> ")") target l)
            h)
    denote (Expr.in_list e items) storage_ty = do
      target ← denote e none
      l ← denote items (expression_storage_ty cx e)
      ok (pair (λ a b. a <> " IN " <> b) target l)
    denote (Expr.any_op op lhs rhs) storage_ty = elim (is_eq_op op) [
      | false ↦ err (
          unsupported_feature
            ("SurrealDB driver only supports `= ANY` list membership, got " <> cx.debug_op op))
      | true ↦ do
        v ← denote lhs (expression_storage_ty cx rhs)
        l ← denote rhs none
        ok (pair (λ a b. b <> " CONTAINS " <> a) v l)
    ]
    denote (Expr.is_superset lhs rhs) storage_ty = do
      l ← denote lhs (expression_storage_ty cx rhs)
      r ← denote rhs (expression_storage_ty cx lhs)
      ok (pair (λ a b. a <> " CONTAINSALL " <> b) l r)
    denote (Expr.intersects lhs rhs) storage_ty = do
      l ← denote lhs (expression_storage_ty cx rhs)
      r ← denote rhs (expression_storage_ty cx lhs)
      ok (pair (λ a b. a <> " CONTAINSANY " <> b) l r)
    denote (Expr.length_of e) storage_ty = do
      inner ← denote e none
      ok (mapped (λ a. "array::len(" <> a <> ")") inner)
    denote (Expr.starts_with e prefix) storage_ty = do
      target ← denote e none
      p ← denote prefix (expression_storage_ty cx e)
      ok (
          pair
            (λ a b. "(" <> a <> " IS NOT NONE AND string::starts_with(" <> a <> ", " <> b <> "))")
            target p)
    denote (Expr.json_extract base path) storage_ty =
        ok (closed (push_segments (base_text cx table base (denote base none)) path))
    denote (Expr.reference r) storage_ty = ok (closed (reference_text table (cx.resolve r)))
    denote (Expr.value v) storage_ty = denote_value C v storage_ty
    denote (Expr.list items) storage_ty = do
      parts ← denote_all items storage_ty
      ok (mapped (λ ps. "[" <> join ", " ps <> "]") parts)
    denote (Expr.other n) storage_ty = err (
        unsupported_feature
          ("SurrealDB driver cannot translate filter expression: " <> cx.debug_expr (Expr.other n)))

    pub denote_all : Exprs → Option DbType → Result (Fragment (List String))
    denote_all Exprs.nil storage_ty = ok (closed [])
    denote_all (Exprs.cons e es) storage_ty = do
      part ← denote e storage_ty
      parts ← denote_all es storage_ty
      ok (pair (λ p ps. p ∷ ps) part parts)
