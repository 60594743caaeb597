-- ===== src/Op/QueryPk/Left.antt =====
-- How many elements of a list are above a key.
use toasty_driver_surreal.Prelude.{
  ℕ, suc, ◌<◌, Bool, true, false, List, [], ◌∷◌, ◌++◌, In, ◌≡◌, refl, ap, ◌∙◌, ◌⊎◌, inl, inr,
  length, All, arith, Bool-cases,
}
use toasty_driver_surreal.Op.QueryPk.Slices.{above}

module _ {A K : Type 0} (key : A → K) (less : K → K → Bool)
    (trans : (a b c : K) → less a b ≡ true → less b c ≡ true → less a c ≡ true)
    (irrefl : (a : K) → less a a ≡ false) where
  abbrev pub count_above : K → List A → ℕ
  count_above c xs = length (above key less c xs)

  -- above a key that is above `c` there are no more elements, and fewer when it occurs
  above-fewer :
      (c : K) (x : A) (xs : List A)
      → less c (key x) ≡ true
      → count_above (key x) xs < suc (count_above c xs)
  above-fewer c x [] h = omega arith
  above-fewer c x (y ∷ ys) h = elim (Bool-cases (less (key x) (key y))) [
    | inl e ↦ rw (e, trans c (key x) (key y) h e) (omega (arith, above-fewer c x ys h))
    | inr e ↦ elim (Bool-cases (less c (key y))) [
      | inl d ↦ rw (e, d) (omega (arith, above-fewer c x ys h))
      | inr d ↦ rw (e, d) (above-fewer c x ys h)
    ]
  ]

  pub above-shrinks :
      (c : K) (x : A) (xs : List A)
      → less c (key x) ≡ true
      → In x xs
      → count_above (key x) xs < count_above c xs
  above-shrinks c x [] h i = absurd i.lower
  above-shrinks c x (y ∷ ys) h (inl same) =
      let e : less (key x) (key y) ≡ false = ap (λ z. less (key x) (key z)) same ∙ irrefl (key x) in
      let d : less c (key y) ≡ true = ap (λ z. less c (key z)) same ∙ h in
      rw (e, d) (above-fewer c x ys h)
  above-shrinks c x (y ∷ ys) h (inr i) = elim (Bool-cases (less (key x) (key y))) [
    | inl e ↦ rw (e, trans c (key x) (key y) h e) (omega (arith, above-shrinks c x ys h i))
    | inr e ↦ elim (Bool-cases (less c (key y))) [
      | inl d ↦ rw (e, d) (omega (arith, above-shrinks c x ys h i))
      | inr d ↦ rw (e, d) (above-shrinks c x ys h i)
    ]
  ]

  above-at_most : (c : K) (xs : List A) → count_above c xs < suc (length xs)
  above-at_most c [] = omega arith
  above-at_most c (y ∷ ys) = elim (Bool-cases (less c (key y))) [
    | inl e ↦ rw e (omega (arith, above-at_most c ys))
    | inr e ↦ rw e (omega (arith, above-at_most c ys))
  ]

  pub above-bounded : (x : A) (xs : List A) → In x xs → count_above (key x) xs < length xs
  above-bounded x [] i = absurd i.lower
  above-bounded x (y ∷ ys) (inl same) =
      let e : less (key x) (key y) ≡ false = ap (λ z. less (key x) (key z)) same ∙ irrefl (key x) in
      rw e (above-at_most (key x) ys)
  above-bounded x (y ∷ ys) (inr i) = elim (Bool-cases (less (key x) (key y))) [
    | inl e ↦ rw e (omega (arith, above-bounded x ys i))
    | inr e ↦ rw e (omega (arith, above-bounded x ys i))
  ]

module _ {A : Type 0} where
  pub All-imp : (P Q : A → Type 0) → ((x : A) → P x → Q x) → (xs : List A) → All P xs → All Q xs
  All-imp P Q f [] h = tt
  All-imp P Q f (x ∷ xs) (h, hs) = (f x h, All-imp P Q f xs hs)

  pub snoc-cases : (xs : List A) → (xs ≡ []) ⊎ ((ys : List A) × (y : A) × (xs ≡ ys ++ y ∷ []))
  snoc-cases [] = inl refl
  snoc-cases (x ∷ xs) = elim (snoc-cases xs) [
    | inl e ↦ inr ([], x, ap (λ l. x ∷ l) e)
    | inr (ys, y, e) ↦ inr (x ∷ ys, y, ap (λ l. x ∷ l) e)
  ]
