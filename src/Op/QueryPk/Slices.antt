-- ===== src/Op/QueryPk/Slices.antt =====
-- The pages of a list that ascends by a key.
use toasty_driver_surreal.Prelude.{
  ℕ, zero, suc, ◌<◌, Bool, true, false, List, [], ◌∷◌, ◌++◌, ◌≡◌, refl, ap, ◌⊎◌, inl, inr, length,
  take, All, if◌then◌else◌, arith, Bool-cases,
}

module _ {A : Type 0} where
  -- a front that is short is the whole list; a full one ends in an element
  abbrev pub Page : ℕ → List A → Type 0
  Page n ys =
      ((take n ys ≡ ys) × (length ys < n))
      ⊎ ((xs : List A) × (x : A) × (zs : List A) × (take n ys ≡ xs ++ x ∷ [])
          × (ys ≡ xs ++ x ∷ zs)
          × (length (take n ys) ≡ n))

  pub page : (n : ℕ) (ys : List A) → 0 < n → Page n ys
  page zero ys h = absurd (omega arith)
  page (suc n) [] h = inl (refl, omega arith)
  page (suc zero) (y ∷ ys) h = inr ([], y, ys, refl, refl, refl)
  page (suc (suc n)) (y ∷ ys) h = elim (page (suc n) ys (omega arith)) [
    | inl (whole, short) ↦ inl (ap (λ l. y ∷ l) whole, omega arith)
    | inr (xs, x, zs, front, all, full) ↦
        inr (y ∷ xs, x, zs, ap (λ l. y ∷ l) front, ap (λ l. y ∷ l) all, ap suc full)
  ]

  module _ {K : Type 0} (key : A → K) (less : K → K → Bool) where
    -- the elements whose keys are above `c`
    abbrev pub above : K → List A → List A
    above c [] = []
    above c (x ∷ xs) = if less c (key x) then x ∷ above c xs else above c xs

    -- every key is below those behind it
    abbrev pub Ascending : List A → Type 0
    Ascending [] = Unit
    Ascending (x ∷ xs) = All (λ y. less (key x) (key y) ≡ true) xs × Ascending xs

    above-All : (c : K) (xs : List A) → All (λ y. less c (key y) ≡ true) xs → above c xs ≡ xs
    above-All c [] h = refl
    above-All c (x ∷ xs) (h, hs) = rw h (ap (λ l. x ∷ l) (above-All c xs hs))

    itself : ((a b : K) → less a b ≡ true → less b a ≡ false) → (k : K) → less k k ≡ false
    itself asym k = elim (Bool-cases (less k k)) [ inl e ↦ asym k k e | inr e ↦ e ]

    All-middle : (P : A → Type 0) (xs : List A) (x : A) (zs : List A) → All P (xs ++ x ∷ zs) → P x
    All-middle P [] x zs (h, hs) = h
    All-middle P (y ∷ xs) x zs (h, hs) = All-middle P xs x zs hs

    -- In an ascending list, what lies above the key of an element are the elements behind it.
    pub above-key :
        ((a b : K) → less a b ≡ true → less b a ≡ false)
        → (xs : List A) (x : A) (zs : List A) → Ascending (xs ++ x ∷ zs)
        → above (key x) (xs ++ x ∷ zs) ≡ zs
    above-key asym [] x zs (h, hs) = rw (itself asym (key x)) (above-All (key x) zs h)
    above-key asym (y ∷ xs) x zs (h, hs) =
        rw (asym (key y) (key x) (All-middle (λ z. less (key y) (key z) ≡ true) xs x zs h))
          (above-key asym xs x zs hs)
