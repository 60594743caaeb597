-- ===== src/Migration/Alter/Growth.antt =====
-- The index statements of a plan only grow.
use toasty_driver_surreal.Prelude.{
  String, Bool, true, false, ◌||◌, List, [], ◌∷◌, ◌++◌, ◌≡◌, refl, Bool-cases, inl, inr, str_eq,
  eq_iff, if◌then◌else◌,
}
use toasty_driver_surreal.Schema.{Column, Index, Table, Catalog, contains_column}
use toasty_driver_surreal.Migration.Statements.{
  push_unique, contains_text, remove_index_statement, define_index_statement,
}
use toasty_driver_surreal.Migration.Alter.{
  Plan, removal, definition, remove_if_secondary, define_if_secondary, remove_touching,
  define_touching, rebuild_indices,
}

or_left : (a b : Bool) → a ≡ true → (a || b) ≡ true
or_left a b h = rw h refl

or_right : (a b : Bool) → b ≡ true → (a || b) ≡ true
or_right true b h = refl
or_right false b h = h

pub false-true : false ≡ true → ⊥
false-true h = cc

contains-append :
    (xs ys : List String) (s : String)
    → contains_text (xs ++ ys) s ≡ (contains_text xs s || contains_text ys s)
contains-append [] ys s = refl
contains-append (x ∷ xs) ys s = elim (Bool-cases (str_eq x s)) [
  | inl e ↦ rw e refl
  | inr e ↦ rw e (contains-append xs ys s)
]

keeps :
    (xs : List String) (t s : String)
    → contains_text xs s ≡ true
    → contains_text (push_unique xs t) s ≡ true
unfolding push_unique
keeps xs t s h = elim (Bool-cases (contains_text xs t)) [
  | inl e ↦ rw e h
  | inr e ↦ rw (e, contains-append xs (t ∷ []) s) (or_left (contains_text xs s) _ h)
]

takes : (xs : List String) (t : String) → contains_text (push_unique xs t) t ≡ true
unfolding push_unique
takes xs t = elim (Bool-cases (contains_text xs t)) [
  | inl e ↦ rw e e
  | inr e ↦
      rw (e, contains-append xs (t ∷ []) t)
        (or_right (contains_text xs t) _ (or_left (str_eq t t) _ ((eq_iff t t).1 refl)))
]

-- the removals and the definitions of a plan, and those of a later one
abbrev pub Removes : Plan → String → Type 0
Removes plan s = contains_text plan.index_removals s ≡ true

abbrev pub Defines : Plan → String → Type 0
Defines plan s = contains_text plan.index_definitions s ≡ true

abbrev pub Grows : Plan → Plan → Type 0
Grows p q = ((s : String) → Removes p s → Removes q s) × ((s : String) → Defines p s → Defines q s)

unchanged : (plan : Plan) → Grows plan plan
unchanged plan = (λ s h. h, λ s h. h)

then-Grows : (p q r : Plan) → Grows p q → Grows q r → Grows p r
then-Grows p q r a b = (λ s h. b.0 s (a.0 s h), λ s h. b.1 s (a.1 s h))

module _ (cat : Catalog) (previous next : Table) where
  remove-Grows :
      (plan : Plan) (i : Index) → Grows plan (remove_if_secondary cat previous next plan i)
  unfolding remove_if_secondary removal
  remove-Grows plan i = elim (Bool-cases i.primary_key) [
    | inl e ↦ rw e (unchanged plan)
    | inr e ↦ rw e (keeps plan.index_removals _, λ s h. h)
  ]

  define-Grows :
      (plan : Plan) (i : Index) → Grows plan (define_if_secondary cat previous next plan i)
  unfolding define_if_secondary definition
  define-Grows plan i = elim (Bool-cases i.primary_key) [
    | inl e ↦ rw e (unchanged plan)
    | inr e ↦ rw e (λ s h. h, keeps plan.index_definitions _)
  ]

  pub Removes-it :
      (plan : Plan) (i : Index)
      → i.primary_key ≡ false
      → Removes (remove_if_secondary cat previous next plan i) (remove_index_statement previous i)
  unfolding remove_if_secondary removal
  Removes-it plan i h = rw h (takes plan.index_removals _)

  pub Defines-it :
      (plan : Plan) (i : Index)
      → i.primary_key ≡ false
      → Defines
          (define_if_secondary cat previous next plan i)
          (define_index_statement cat next i false)
  unfolding define_if_secondary definition
  Defines-it plan i h = rw h (takes plan.index_definitions _)

  Grows-if : (b : Bool) (p q : Plan) → Grows p q → Grows p (if b then q else p)
  Grows-if true p q h = h
  Grows-if false p q h = unchanged p

  pub remove_touching-Grows :
      (is : List Index) (c : Column) (plan : Plan)
      → Grows plan (remove_touching cat previous next c plan is)
  unfolding remove_touching
  remove_touching-Grows [] c plan = unchanged plan
  remove_touching-Grows (i ∷ is) c plan =
      let after : Plan =
        if contains_column i.columns c.id
        then remove_if_secondary cat previous next plan i
        else plan in
      then-Grows plan after (remove_touching cat previous next c after is)
        (Grows-if (contains_column i.columns c.id) plan
          (remove_if_secondary cat previous next plan i) (remove-Grows plan i))
        (remove_touching-Grows is c after)

  pub define_touching-Grows :
      (is : List Index) (c : Column) (plan : Plan)
      → Grows plan (define_touching cat previous next c plan is)
  unfolding define_touching
  define_touching-Grows [] c plan = unchanged plan
  define_touching-Grows (i ∷ is) c plan =
      let after : Plan =
        if contains_column i.columns c.id
        then define_if_secondary cat previous next plan i
        else plan in
      then-Grows plan after (define_touching cat previous next c after is)
        (Grows-if (contains_column i.columns c.id) plan
          (define_if_secondary cat previous next plan i) (define-Grows plan i))
        (define_touching-Grows is c after)

  pub rebuild-Grows :
      (rs : List (Column × Column)) (plan : Plan)
      → Grows plan (rebuild_indices cat previous next plan rs)
  unfolding rebuild_indices
  rebuild-Grows [] plan = unchanged plan
  rebuild-Grows ((p, n) ∷ rs) plan =
      let removed : Plan = remove_touching cat previous next p plan previous.indices in
      let defined : Plan = define_touching cat previous next n removed next.indices in
      then-Grows plan defined (rebuild_indices cat previous next defined rs)
        (then-Grows plan removed defined (remove_touching-Grows previous.indices p plan)
          (define_touching-Grows next.indices n removed))
        (rebuild-Grows rs defined)
