-- ===== src/Expr/Fragment/Refines.antt =====
-- The renderer is its reference description, put to work behind the binds that it is given.
use toasty_driver_surreal.Prelude.{
  ◌+◌, String, ◌<>◌, List, [], ◌∷◌, ◌++◌, Option, none, ◌≡◌, refl, ap, ◌∙◌, length, length-append,
  arith,
}
use toasty_driver_surreal.Text.{join, decimal}
use toasty_driver_surreal.Error.{Result, ok, err, ◌>>=◌}
use toasty_driver_surreal.Schema.{Table}
use toasty_driver_surreal.Value.{DbType, Value, Values, SurValue}
use toasty_driver_surreal.Value.Codec.{Codec}
use toasty_driver_surreal.Value.Encode.{to_surreal_with_storage}
use toasty_driver_surreal.Expr.{eq, Expr, Exprs, ExprContext, Binds, push}
use toasty_driver_surreal.Expr.Render.{
  Rendered, push_segments, expression_storage_ty, document_base, null_operand, bind_items,
  value_to_binds, render_with_storage, render_items,
}
use toasty_driver_surreal.Expr.Fragment.{
  Fragment, pair, mapped, closed, placeholder, number_onto, emit, denote_items, denote_value,
  base_text, operand, denote, denote_all,
}

pub length-number_onto :
    (binds : Binds) (vs : List SurValue) → length (number_onto binds vs) ≡ length binds + length vs
unfolding number_onto
length-number_onto binds [] = omega arith
length-number_onto binds (v ∷ vs) =
    let b : Binds = binds ++ ("p" <> decimal (length binds), v) ∷ [] in
    omega (
      arith,
      length-number_onto b vs,
      length-append binds (("p" <> decimal (length binds), v) ∷ []),
    )

pub number_onto-append :
    (binds : Binds) (vs ws : List SurValue)
    → number_onto (number_onto binds vs) ws ≡ number_onto binds (vs ++ ws)
unfolding number_onto
number_onto-append binds [] ws = refl
number_onto-append binds (v ∷ vs) ws =
    number_onto-append (binds ++ ("p" <> decimal (length binds), v) ∷ []) vs ws

-- a rendering step `r` behind `binds` is the fragment `m`, put to work there
abbrev Refines {ℓ} : {A : Type ℓ} → Result (A × Binds) → Result (Fragment A) → Binds → Type ℓ
Refines r m binds = r ≡ (m >>= λ f. ok (emit f binds))

module _ {ℓ κ μ} {A : Type ℓ} {B : Type κ} {C : Type μ} where
  emit-pair :
      (f : A → B → C) (a : Fragment A) (b : Fragment B) (binds : Binds)
      → ◌≡◌ {A = C × Binds}
          (f (emit a binds).0 (emit b (emit a binds).1).0, (emit b (emit a binds).1).1)
          (emit (pair f a b) binds)
  unfolding emit
  emit-pair f a b binds = rw (length-number_onto, number_onto-append) refl

  Refines-pair :
      (f : A → B → C) (r : Result (A × Binds)) (s : Binds → Result (B × Binds))
      (m : Result (Fragment A)) (n : Result (Fragment B)) (binds : Binds)
      → Refines r m binds
      → ((b : Binds) → Refines (s b) n b)
      → Refines
          (r >>= λ x. s x.1 >>= λ y. ok (f x.0 y.0, y.1))
          (m >>= λ a. n >>= λ b. ok (pair f a b))
          binds
  Refines-pair f r s (err e) n binds h k = rw h refl
  Refines-pair f r s (ok a) (err e) binds h k = rw (h, k) refl
  Refines-pair f r s (ok a) (ok b) binds h k = rw (h, k) (ap ok (emit-pair f a b binds))

module _ {ℓ κ μ ν} {A : Type ℓ} {B : Type κ} {C : Type μ} {D : Type ν} where
  Refines-triple :
      (f : A → B → C → D) (r : Result (A × Binds)) (s : Binds → Result (B × Binds))
      (t : Binds → Result (C × Binds)) (m : Result (Fragment A)) (n : Result (Fragment B))
      (o : Result (Fragment C)) (binds : Binds)
      → Refines r m binds
      → ((b : Binds) → Refines (s b) n b)
      → ((b : Binds) → Refines (t b) o b)
      → Refines
          (r >>= λ x. s x.1 >>= λ y. t y.1 >>= λ z. ok (f x.0 y.0 z.0, z.1))
          (m >>= λ a. n >>= λ b. o >>= λ c. ok (pair {A = C → D} (λ g x. g x) (pair f a b) c))
          binds
  Refines-triple f r s t (err e) n o binds h k l = rw h refl
  Refines-triple f r s t (ok a) (err e) o binds h k l = rw (h, k) refl
  Refines-triple f r s t (ok a) (ok b) (err e) binds h k l = rw (h, k, l) refl
  Refines-triple f r s t (ok a) (ok b) (ok c) binds h k l =
      rw (h, k, l)
        (ap (λ (x : (C → D) × Binds). ok (x.0 (emit c x.1).0, (emit c x.1).1))
            (emit-pair f a b binds)
          ∙ ap ok (emit-pair {A = C → D} (λ g x. g x) (pair f a b) c binds))

module _ {ℓ κ} {A : Type ℓ} {B : Type κ} where
  Refines-mapped :
      (f : A → B) (r : Result (A × Binds)) (m : Result (Fragment A)) (binds : Binds)
      → Refines r m binds
      → Refines (r >>= λ x. ok (f x.0, x.1)) (m >>= λ a. ok (mapped f a)) binds
  unfolding emit
  Refines-mapped f r (err e) binds h = rw h refl
  Refines-mapped f r (ok a) binds h = rw h refl

emit-closed {ℓ} :
    {A : Type ℓ} (a : A) (binds : Binds) → ◌≡◌ {A = A × Binds} (a, binds) (emit (closed a) binds)
unfolding emit number_onto
emit-closed a binds = refl

emit-placeholder : (v : SurValue) (binds : Binds) → push binds v ≡ emit (placeholder v) binds
unfolding emit number_onto push
emit-placeholder v binds = refl

Refines-push :
    (r : Result SurValue) (binds : Binds)
    → Refines (r >>= λ v. ok (push binds v)) (r >>= λ v. ok (placeholder v)) binds
Refines-push (ok v) binds = ap ok (emit-placeholder v binds)
Refines-push (err e) binds = refl

Refines-item :
    (r : Result SurValue) (s : Binds → Result (List String × Binds))
    (n : Result (Fragment (List String))) (binds : Binds)
    → ((b : Binds) → Refines (s b) n b)
    → Refines
        (r >>= λ v. s (push binds v).1 >>= λ y. ok ((push binds v).0 ∷ y.0, y.1))
        (r >>= λ v. n >>= λ b. ok (pair (λ p ps. p ∷ ps) (placeholder v) b))
        binds
Refines-item (ok v) s n binds k =
    Refines-pair (λ p ps. p ∷ ps) (ok (push binds v)) s (ok (placeholder v)) n binds
      (ap ok (emit-placeholder v binds)) k
Refines-item (err e) s n binds k = refl

module _ (C : Codec) where
  Refines-items :
      (items : Values) (t : Option DbType) (binds : Binds)
      → Refines (bind_items C binds items t) (denote_items C items t) binds
  unfolding bind_items denote_items
  Refines-items Values.nil t binds = ap ok (emit-closed [] binds)
  Refines-items (Values.cons item items) t binds =
      Refines-item (to_surreal_with_storage C item t) _ _ binds (Refines-items items t)

  Refines-value :
      (v : Value) (t : Option DbType) (binds : Binds)
      → Refines (value_to_binds C binds v t) (denote_value C v t) binds
  unfolding value_to_binds denote_value
  Refines-value (Value.list items) t binds =
      Refines-mapped (λ ps. "[" <> join ", " ps <> "]") _ _ binds (Refines-items items t binds)
  Refines-value v t binds = Refines-push (to_surreal_with_storage C v t) binds

module _ (C : Codec) (cx : ExprContext) (table : Table) where
  text_of_base :
      (e : Expr) (m : Result (Fragment String)) (r : Rendered)
      → Refines r m []
      → document_base cx table e r ≡ base_text cx table e m
  unfolding document_base emit
  text_of_base (Expr.reference x) m r h = refl
  text_of_base _ (ok f) r h = rw h refl
  text_of_base _ (err e) r h = rw h refl

  Refines-operand :
      (e : Expr) (m : Result (Fragment String)) (r : Rendered) (binds : Binds)
      → Refines r m binds
      → Refines (null_operand cx table e binds r) (operand cx table e m) binds
  unfolding null_operand
  Refines-operand (Expr.reference r) m s binds h = ap ok (emit-closed _ binds)
  Refines-operand _ m s binds h = h

  mutual
    unfolding render_with_storage denote

    refines :
        (e : Expr) (t : Option DbType) (binds : Binds)
        → Refines (render_with_storage C cx table e binds t) (denote C cx table e t) binds
    refines (Expr.binary_op op lhs rhs) t binds =
        Refines-pair _ _ _ _ _ binds (refines lhs (expression_storage_ty cx rhs) binds)
          (refines rhs (expression_storage_ty cx lhs))
    refines (Expr.all_of operands) t binds =
        Refines-mapped _ _ _ binds (Refines-all operands none binds)
    refines (Expr.any_of operands) t binds =
        Refines-mapped _ _ _ binds (Refines-all operands none binds)
    refines (Expr.not_of e) t binds = Refines-mapped _ _ _ binds (refines e none binds)
    refines (Expr.is_null e) t binds =
        Refines-mapped _ _ _ binds (Refines-operand e _ _ binds (refines e none binds))
    refines (Expr.between e low high) t binds =
        Refines-triple _ _ _ _ _ _ _ binds (refines e none binds)
          (refines low (expression_storage_ty cx e)) (refines high (expression_storage_ty cx e))
    refines (Expr.in_list e items) t binds =
        Refines-pair _ _ _ _ _ binds (refines e none binds)
          (refines items (expression_storage_ty cx e))
    refines (Expr.any_op eq lhs rhs) t binds =
        Refines-pair _ _ _ _ _ binds (refines lhs (expression_storage_ty cx rhs) binds)
          (refines rhs none)
    refines (Expr.any_op op lhs rhs) t binds = refl
    refines (Expr.is_superset lhs rhs) t binds =
        Refines-pair _ _ _ _ _ binds (refines lhs (expression_storage_ty cx rhs) binds)
          (refines rhs (expression_storage_ty cx lhs))
    refines (Expr.intersects lhs rhs) t binds =
        Refines-pair _ _ _ _ _ binds (refines lhs (expression_storage_ty cx rhs) binds)
          (refines rhs (expression_storage_ty cx lhs))
    refines (Expr.length_of e) t binds = Refines-mapped _ _ _ binds (refines e none binds)
    refines (Expr.starts_with e prefix) t binds =
        Refines-pair _ _ _ _ _ binds (refines e none binds)
          (refines prefix (expression_storage_ty cx e))
    refines (Expr.json_extract base path) t binds =
        ap (λ x. ok (push_segments x path, binds))
          (text_of_base base (denote C cx table base none) _ (refines base none []))
        ∙ ap ok (emit-closed _ binds)
    refines (Expr.reference r) t binds = ap ok (emit-closed _ binds)
    refines (Expr.value v) t binds = Refines-value C v t binds
    refines (Expr.list items) t binds = Refines-mapped _ _ _ binds (Refines-all items t binds)
    refines (Expr.other n) t binds = refl

    Refines-all :
        (es : Exprs) (t : Option DbType) (binds : Binds)
        → Refines (render_items C cx table es binds t) (denote_all C cx table es t) binds
    Refines-all Exprs.nil t binds = ap ok (emit-closed [] binds)
    Refines-all (Exprs.cons e es) t binds =
        Refines-pair _ _ _ _ _ binds (refines e t binds) (Refines-all es t)

  -- Whatever the expression, the binds and the storage hint, rendering gives the error of the
  -- reference description, or its text numbered from the next free placeholder together with the
  -- given binds followed by its literals under those numbers.
  pub render-denote :
      (e : Expr) (binds : Binds) (t : Option DbType)
      → render_with_storage C cx table e binds t
        ≡ (denote C cx table e t >>= λ f. ok (emit f binds))
  render-denote e binds t = refines e t binds
