-- ===== src/Examples/Filters.antt =====
-- The theorems on filters at concrete inputs.
use toasty_driver_surreal.Prelude.{pos, true, String, ◌≡◌, refl, none, [], ◌∷◌, ℕ}
use toasty_driver_surreal.Error.{ok, ◌>>=◌}
use toasty_driver_surreal.Value.{Value, Values, Number, SurValue}
use toasty_driver_surreal.Value.Encode.{to_surreal}
use toasty_driver_surreal.Text.{join, decimal}
use toasty_driver_surreal.Expr.{BinaryOp, Expr, Exprs, Binds, column_ref}
use toasty_driver_surreal.Expr.Render.{render_with_storage}
use toasty_driver_surreal.Expr.Fragment.{number_onto, emit, denote}
use toasty_driver_surreal.Expr.Fragment.Refines.{render-denote}
use toasty_driver_surreal.Expr.Identifiers.{column_ref-injective, SameReference}
use toasty_driver_surreal.Expr.Grouping.{render_with_storage-binary_op}
use toasty_driver_surreal.Examples.Samples.{codec, group_id, context, users, members}

-- active AND id >= 7 AND id IN [8, 9]
abbrev filter : Expr
filter = Expr.all_of (
    Exprs.cons (Expr.reference 1) (
      Exprs.cons (Expr.binary_op BinaryOp.ge (Expr.reference 0) (Expr.value (Value.u64 7))) (
        Exprs.cons
          (Expr.in_list (Expr.reference 0) (
            Expr.value
              (Value.list (Values.cons (Value.u64 8) (Values.cons (Value.u64 9) Values.nil)))))
          Exprs.nil)))

abbrev filter_text : String
filter_text = "(`acti``ve` = true AND record::id(id) >= $p1 AND record::id(id) IN [$p2, $p3])"

abbrev number : ℕ → SurValue
number n = SurValue.number (Number.int (pos n))

abbrev filter_binds : Binds
filter_binds =
    ("p0", SurValue.bool true) ∷ ("p1", number 7) ∷ ("p2", number 8) ∷ ("p3", number 9) ∷ []

filter_rendered :
    render_with_storage codec context users filter (number_onto [] (SurValue.bool true ∷ [])) none
    ≡ ok (filter_text, filter_binds)
unfolding render_with_storage number_onto to_surreal join decimal column_ref
filter_rendered = refl

render-denote_example :
    render_with_storage codec context users filter [] none
    ≡ (denote codec context users filter none >>= λ f. ok (emit f []))
render-denote_example = render-denote codec context users filter [] none

column_ref-injective_example : SameReference members group_id group_id
column_ref-injective_example = column_ref-injective members group_id group_id refl

abbrev difference : Expr → Expr → Expr
difference a b = Expr.binary_op BinaryOp.sub a b

render_with_storage-binary_op_example :
    render_with_storage codec context users
      (difference (Expr.reference 0) (difference (Expr.reference 4) (Expr.reference 0)))
      []
      none
    ≡ render_with_storage codec context users
        (difference (difference (Expr.reference 0) (Expr.reference 4)) (Expr.reference 0))
        []
        none
render_with_storage-binary_op_example =
    render_with_storage-binary_op codec context users BinaryOp.sub BinaryOp.sub 0 4 0 [] none
