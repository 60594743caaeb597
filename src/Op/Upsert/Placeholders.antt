-- ===== src/Op/Upsert/Placeholders.antt =====
-- The placeholders of an upsert refer to the values of its changes.
use text.Mathlib.TextLemmas.{append_cancel_left}
use toasty_driver_surreal.Prelude.{
  ℕ, suc, ◌+◌, String, ◌<>◌, false, List, [], ◌∷◌, ◌++◌, some, ◌≡◌, refl, ap, ◌∙◌, str_eq, eq_iff,
  length, get_elem?, map, arith,
}
use toasty_driver_surreal.Value.{SurValue}
use toasty_driver_surreal.Expr.{Binds}
use toasty_driver_surreal.Expr.Fragment.{number_onto}
use toasty_driver_surreal.Expr.Fragment.Numbering.{param, bound}
use toasty_driver_surreal.Op.Upsert.Meaning.{
  Change, Changes, Item, values, numbered, items, all_values,
}
use toasty_driver_surreal.Text.{str_eq_comm}
use toasty_driver_surreal.Expr.Fragment.Numbering.{number_onto-number_from, bound-number_from}
use toasty_driver_surreal.Expr.Fragment.Named.{param-not-rid}
use toasty_driver_surreal.Op.Upsert.Effect.{referred, substitute}

-- placeholders and the names that they refer to
same_reference : (name other : String) → str_eq ("$" <> name) ("$" <> other) ≡ str_eq name other
same_reference name other = ground (
  arith,
  eq_iff ("$" <> name) ("$" <> other),
  eq_iff name other,
  append_cancel_left "$" name other,
  ap (λ s. "$" <> s),
)

pub referred-bound :
    (binds : Binds) (name : String) → referred binds ("$" <> name) ≡ bound name binds
unfolding referred bound
referred-bound [] name = refl
referred-bound ((key, v) ∷ binds) name =
    rw (same_reference key name, referred-bound binds name) refl

-- the placeholders from the k-th on refer to the values
abbrev pub Refers : Binds → ℕ → List SurValue → Type 0
Refers binds k vs = (i : ℕ) → referred binds ("$" <> param (k + i)) ≡ get_elem? vs i

module _ (binds : Binds) where
  Refers-here :
      (k : ℕ) (v : SurValue) (vs : List SurValue)
      → Refers binds k (v ∷ vs)
      → referred binds ("$" <> param k) ≡ some v
  Refers-here k v vs h =
      let e : k ≡ k + 0 = omega arith in ap (λ n. referred binds ("$" <> param n)) e ∙ h 0

  Refers-later :
      (k : ℕ) (v : SurValue) (vs : List SurValue)
      → Refers binds k (v ∷ vs)
      → Refers binds (suc k) vs
  Refers-later k v vs h i =
      let e : suc k + i ≡ k + suc i = omega arith in
      ap (λ n. referred binds ("$" <> param n)) e ∙ h (suc i)

  Refers-after :
      (us vs : List SurValue) (k : ℕ) → Refers binds k (us ++ vs) → Refers binds (k + length us) vs
  Refers-after [] vs k h i =
      let e : k + 0 + i ≡ k + i = omega arith in ap (λ n. referred binds ("$" <> param n)) e ∙ h i
  Refers-after (u ∷ us) vs k h i =
      let e : k + suc (length us) + i ≡ suc k + length us + i = omega arith in
      ap (λ n. referred binds ("$" <> param n)) e
      ∙ Refers-after us vs (suc k) (Refers-later k u (us ++ vs) h) i

  substitute-numbered :
      (c : Change SurValue) (k : ℕ) (vs : List SurValue)
      → Refers binds k (values c ++ vs)
      → substitute binds (numbered k c) ≡ c
  substitute-numbered Change.clear k vs h = refl
  substitute-numbered (Change.put v) k vs h = rw (Refers-here k v vs h) refl
  substitute-numbered (Change.keep v) k vs h = rw (Refers-here k v vs h) refl
  substitute-numbered (Change.plus d v) k vs h =
      rw (Refers-here k d (v ∷ vs) h, Refers-here (suc k) v vs (Refers-later k d (v ∷ vs) h)) refl
  substitute-numbered (Change.minus d v) k vs h =
      rw (Refers-here k d (v ∷ vs) h, Refers-here (suc k) v vs (Refers-later k d (v ∷ vs) h)) refl
  substitute-numbered (Change.concat d v) k vs h =
      rw (Refers-here k d (v ∷ vs) h, Refers-here (suc k) v vs (Refers-later k d (v ∷ vs) h)) refl

  pub substitute-items :
      (cs : Changes) (k : ℕ)
      → Refers binds k (all_values cs)
      → map (λ (item : Item). (item.0, substitute binds item.1)) (items k cs) ≡ cs
  substitute-items [] k h = refl
  substitute-items ((name, c) ∷ cs) k h =
      rw
        (
          substitute-numbered c k (all_values cs) h,
          substitute-items cs (k + length (values c)) (Refers-after (values c) (all_values cs) k h),
        )
        refl

bound_later :
    (key name : String) (v : SurValue) (rest : Binds)
    → str_eq key name ≡ false
    → bound name ((key, v) ∷ rest) ≡ bound name rest
unfolding bound
bound_later key name v rest e = rw e refl

-- the binds of an upsert: the record id, and then the values
pub numbered-Refers :
    (rid : SurValue) (vs : List SurValue) → Refers (("rid", rid) ∷ number_onto [] vs) 0 vs
numbered-Refers rid vs i =
    referred-bound (("rid", rid) ∷ number_onto [] vs) (param (0 + i))
    ∙ bound_later "rid" (param (0 + i)) rid (number_onto [] vs)
        (str_eq_comm (param (0 + i)) "rid" (param-not-rid (0 + i)))
    ∙ ap (bound (param (0 + i))) (number_onto-number_from [] vs)
    ∙ bound-number_from i 0 (0 + i) vs refl
