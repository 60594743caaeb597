-- ===== src/Expr/Grouping.antt =====
-- How operators nest in the rendered text.
use text.Mathlib.TextLemmas.{append_assoc}
use toasty_driver_surreal.Prelude.{ℕ, String, ◌<>◌, Option, ◌≡◌, ap}
use toasty_driver_surreal.Error.{ok}
use toasty_driver_surreal.Schema.{Table}
use toasty_driver_surreal.Value.{DbType}
use toasty_driver_surreal.Value.Codec.{Codec}
use toasty_driver_surreal.Expr.{BinaryOp, Expr, ExprContext, Binds}
use toasty_driver_surreal.Expr.Render.{render_with_storage, symbol}

regroup :
    (a p b q c : String)
    → a <> " " <> p <> " " <> (b <> " " <> q <> " " <> c)
      ≡ (a <> " " <> p <> " " <> b) <> " " <> q <> " " <> c
regroup a p b q c = simp append_assoc

-- The operators are not bracketed: whatever two operators are nested over three columns, the
-- expressions `r p (s q t)` and `(r p s) q t` have the same text and the same binds. Two
-- subtractions are a case of this.
pub render_with_storage-binary_op :
    (C : Codec) (cx : ExprContext) (table : Table) (p q : BinaryOp) (r s t : ℕ) (binds : Binds)
    (ty : Option DbType)
    → render_with_storage C cx table
        (Expr.binary_op p
          (Expr.reference r)
          (Expr.binary_op q (Expr.reference s) (Expr.reference t)))
        binds
        ty
      ≡ render_with_storage C cx table
          (Expr.binary_op q
            (Expr.binary_op p (Expr.reference r) (Expr.reference s))
            (Expr.reference t))
          binds
          ty
unfolding render_with_storage
render_with_storage-binary_op C cx table p q r s t binds ty =
    ap (λ text. ok (text, binds)) (regroup _ (symbol p) _ (symbol q) _)
