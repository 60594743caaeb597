-- ===== src/Expr/Fragment/Numbering.antt =====
-- The names of the binds that are numbered, and the values bound to them.
use text.Mathlib.TextLemmas.{append_cancel_left}
use toasty_driver_surreal.Prelude.{
  ℕ, zero, suc, ◌+◌, String, ◌<>◌, List, [], ◌∷◌, ◌++◌, Option, none, some, ◌≡◌, refl, ap, sym, ◌∙◌,
  length, length-append, get_elem?, arith, str_eq, eq_iff, ◌==◌, if◌then◌else◌,
}
use native.Mathlib.Numerals.{add-one}
use mathlib.Core.List.{append_assoc, append-nil}
use toasty_driver_surreal.Text.{decimal}
use toasty_driver_surreal.Text.Decimal.{decimal-injective}
use toasty_driver_surreal.Value.{SurValue}
use toasty_driver_surreal.Expr.{Binds}
use toasty_driver_surreal.Expr.Fragment.{number_onto}

abbrev pub param : ℕ → String
param i = "p" <> decimal i

-- The value that is bound to a name.
unfoldable pub bound : String → Binds → Option SurValue
bound name [] = none
bound name ((key, v) ∷ binds) = if str_eq key name then some v else bound name binds

abbrev pub number_from : ℕ → List SurValue → Binds
number_from k [] = []
number_from k (v ∷ vs) = (param k, v) ∷ number_from (suc k) vs

pub number_onto-number_from :
    (binds : Binds) (vs : List SurValue)
    → number_onto binds vs ≡ binds ++ number_from (length binds) vs
unfolding number_onto
number_onto-number_from binds [] = sym (append-nil binds)
number_onto-number_from binds (v ∷ vs) =
    let last : Binds = (param (length binds), v) ∷ [] in
    number_onto-number_from (binds ++ last) vs
    ∙ rw (length-append binds last) (rw append_assoc (rw add-one refl))

param-injective : (k i : ℕ) → param k ≡ param i → k ≡ i
param-injective k i e = decimal-injective k i (append_cancel_left "p" (decimal k) (decimal i) e)

same_param : (i k : ℕ) → str_eq (param k) (param i) ≡ (k == i)
same_param i k = ground (arith, eq_iff (param k) (param i), ap param, param-injective k i)

pub bound-number_from :
    (i k j : ℕ) (vs : List SurValue)
    → j ≡ k + i
    → bound (param j) (number_from k vs) ≡ get_elem? vs i
unfolding bound
bound-number_from i k j [] h = refl
bound-number_from zero k j (v ∷ vs) h = ground (arith, same_param j k)
bound-number_from (suc i) k j (v ∷ vs) h =
    ground (arith, same_param j k, bound-number_from i (suc k) j vs (omega arith))
