-- ===== src/Expr/Fragment/Named.antt =====
-- Binds that are some values under their numbers, and a further name beside them.
use Prim.Native.Char.{code}
use text.Mathlib.TextLemmas.{cons-append}
use toasty_driver_surreal.Prelude.{
  ℕ, suc, String, false, List, [], ◌∷◌, ◌++◌, none, some, ◌≡◌, refl, ap, sym, ◌∙◌, str_eq, eq_iff,
  arith, Bool-cases, inl, inr,
}
use toasty_driver_surreal.Error.{ok, >>=-eq-ok, ok-injective}
use toasty_driver_surreal.Schema.{Table}
use toasty_driver_surreal.Value.{SurValue}
use toasty_driver_surreal.Value.Codec.{Codec}
use toasty_driver_surreal.Expr.{Expr, ExprContext, Binds, push, push_named}
use toasty_driver_surreal.Expr.Render.{render}
use toasty_driver_surreal.Expr.Fragment.{number_onto, emit, denote}
use toasty_driver_surreal.Expr.Fragment.Refines.{render-denote, number_onto-append}
use toasty_driver_surreal.Expr.Fragment.Numbering.{
  param, bound, number_from, number_onto-number_from,
}

first_code : String → ℕ
first_code String.[] = 0
first_code (String.◌∷◌ c s) = code c

pub param-not-rid : (k : ℕ) → str_eq (param k) "rid" ≡ false
unfolding first_code
param-not-rid k = elim (Bool-cases (str_eq (param k) "rid")) [
  | inr e ↦ e
  | inl e ↦
      let h : first_code (param k) ≡ 114 = ap first_code ((eq_iff (param k) "rid").0 e) in
      let p : first_code (param k) ≡ 112 = rw cons-append refl in absurd (omega arith)
]

bound-behind :
    (k : ℕ) (vs : List SurValue) (rest : Binds)
    → bound "rid" (number_from k vs ++ rest) ≡ bound "rid" rest
unfolding bound
bound-behind k [] rest = refl
bound-behind k (v ∷ vs) rest = rw (param-not-rid k) (bound-behind (suc k) vs rest)

-- the binds are those of some values under their numbers
abbrev pub IsNumbered : Binds → Type 0
IsNumbered binds = (vs : List SurValue) × (binds ≡ number_onto [] vs)

pub nothing-IsNumbered : IsNumbered []
unfolding number_onto
nothing-IsNumbered = ([], refl)

pub bound-rid :
    (binds : Binds) (v : SurValue)
    → IsNumbered binds
    → bound "rid" (push_named binds "rid" v) ≡ some v
unfolding push_named bound
bound-rid binds v (vs, n) =
    ap (λ b. bound "rid" (b ++ ("rid", v) ∷ [])) (n ∙ number_onto-number_from [] vs)
    ∙ bound-behind 0 vs (("rid", v) ∷ [])

pub push-IsNumbered :
    (binds : Binds) (v : SurValue) → IsNumbered binds → IsNumbered (push binds v).1
unfolding push number_onto
push-IsNumbered binds v (vs, n) =
    (vs ++ v ∷ [], ap (λ b. number_onto b (v ∷ [])) n ∙ number_onto-append [] vs (v ∷ []))

module _ (C : Codec) (cx : ExprContext) where
  pub render-IsNumbered :
      (table : Table) (e : Expr) (binds after : Binds) (text : String)
      → IsNumbered binds
      → render C cx table e binds ≡ ok (text, after)
      → IsNumbered after
  unfolding render emit
  render-IsNumbered table e binds after text (us, n) h =
      let (f, d, o) =
        >>=-eq-ok (denote C cx table e none) _ (sym (render-denote C cx table e binds none) ∙ h) in
      (
        us ++ f.values,
        ap (λ (x : String × Binds). x.1) (sym (ok-injective o))
            ∙ ap (λ b. number_onto b f.values) n
            ∙ number_onto-append [] us f.values,
      )
