-- ===== src/Op/Upsert/Effect.antt =====
-- What the statement of an upsert does to the fields of a record.
use toasty_driver_surreal.Prelude.{
  ℕ, String, ◌<>◌, true, false, List, [], ◌∷◌, Option, none, some, ◌≡◌, refl, ap, ◌∙◌, All,
  Bool-cases, inl, inr, str_eq, eq_iff, map, if◌then◌else◌, arith,
}
use toasty_driver_surreal.Value.{SurValue}
use toasty_driver_surreal.Expr.{Binds}
use toasty_driver_surreal.Op.Upsert.Meaning.{Change, Changes, Item, items}

-- the value bound to a placeholder
unfoldable pub referred : Binds → String → Option SurValue
referred [] p = none
referred ((name, v) ∷ binds) p = if str_eq ("$" <> name) p then some v else referred binds p

-- a parameter that is not bound is `NONE`
abbrev value_of : Option SurValue → SurValue
value_of none = SurValue.none
value_of (some v) = v

abbrev pub substitute : Binds → Change String → Change SurValue
substitute binds Change.clear = Change.clear
substitute binds (Change.put p) = Change.put (value_of (referred binds p))
substitute binds (Change.keep p) = Change.keep (value_of (referred binds p))
substitute binds (Change.plus d p) =
    Change.plus (value_of (referred binds d)) (value_of (referred binds p))
substitute binds (Change.minus d p) =
    Change.minus (value_of (referred binds d)) (value_of (referred binds p))
substitute binds (Change.concat d p) =
    Change.concat (value_of (referred binds d)) (value_of (referred binds p))

-- the fields of a record
abbrev pub Record : Type 0
Record = String → Option SurValue

-- `??`, which passes over `NONE` and `NULL`
abbrev pub coalesce : Option SurValue → SurValue → SurValue
coalesce none d = d
coalesce (some SurValue.none) d = d
coalesce (some SurValue.null) d = d
coalesce (some v) d = v

-- for the server's `+`, `-` and `array::concat`
module _ (plus minus concat : SurValue → SurValue → SurValue) where
  abbrev pub effect : Change SurValue → Option SurValue → Option SurValue
  effect Change.clear old = none
  effect (Change.put v) old = some v
  effect (Change.keep v) old = some (coalesce old v)
  effect (Change.plus d v) old = some (plus (coalesce old d) v)
  effect (Change.minus d v) old = some (minus (coalesce old d) v)
  effect (Change.concat d v) old = some (concat (coalesce old d) v)

  abbrev assign : String → Change SurValue → Record → Record
  assign field c row name = if str_eq field name then effect c (row field) else row name

  -- the server carries out the clauses in their order
  unfoldable pub set_all : Binds → List Item → Record → Record
  set_all binds [] row = row
  set_all binds ((field, c) ∷ rest) row = set_all binds rest (assign field (substitute binds c) row)

  -- the changes at once, each of the field as it was
  unfoldable pub changed : Changes → Record → Record
  changed [] row name = row name
  changed ((field, c) ∷ cs) row name =
      if str_eq field name then effect c (row field) else changed cs row name

  abbrev apply_all : Changes → Record → Record
  apply_all [] row = row
  apply_all ((field, c) ∷ cs) row = apply_all cs (assign field c row)

  -- No two changes are of one field.
  abbrev pub IsSeparate : Changes → Type 0
  IsSeparate [] = Unit
  IsSeparate ((field, c) ∷ cs) =
      All (λ (other : String × Change SurValue). str_eq field other.0 ≡ false) cs × IsSeparate cs

  changed_elsewhere :
      (field : String) (c : Change SurValue) (cs : Changes) (row : Record) (name : String)
      → All (λ (other : String × Change SurValue). str_eq field other.0 ≡ false) cs
      → str_eq field name ≡ false
      → changed cs (assign field c row) name ≡ changed cs row name
  unfolding changed
  changed_elsewhere field c [] row name h e = rw e refl
  changed_elsewhere field c ((other, d) ∷ cs) row name (h, hs) e =
      rw (h, changed_elsewhere field c cs row name hs e) refl

  changed_once :
      (field : String) (cs : Changes) (row : Record) (name : String)
      → All (λ (other : String × Change SurValue). str_eq field other.0 ≡ false) cs
      → str_eq field name ≡ true
      → changed cs row name ≡ row name
  unfolding changed
  changed_once field [] row name h e = refl
  changed_once field ((other, d) ∷ cs) row name (h, hs) e =
      let apart : str_eq other name ≡ false =
        ground (arith, eq_iff field name, eq_iff other name, eq_iff field other) in
      rw apart (changed_once field cs row name hs e)

  apply_all-changed :
      (cs : Changes) (row : Record) (name : String)
      → IsSeparate cs
      → apply_all cs row name ≡ changed cs row name
  unfolding changed
  apply_all-changed [] row name h = refl
  apply_all-changed ((field, c) ∷ cs) row name (h, hs) =
      apply_all-changed cs (assign field c row) name hs ∙ elim (Bool-cases (str_eq field name)) [
        | inl e ↦ changed_once field cs (assign field c row) name h e ∙ rw e refl
        | inr e ↦ changed_elsewhere field c cs row name h e ∙ rw e refl
      ]

  -- the clauses with the bound values are the changes
  set_all-apply_all :
      (binds : Binds) (its : List Item) (row : Record)
      → set_all binds its row
        ≡ apply_all (map (λ (item : Item). (item.0, substitute binds item.1)) its) row
  unfolding set_all
  set_all-apply_all binds [] row = refl
  set_all-apply_all binds ((field, c) ∷ its) row =
      set_all-apply_all binds its (assign field (substitute binds c) row)

  pub set_all-changed :
      (binds : Binds) (cs : Changes) (k : ℕ)
      → map (λ (item : Item). (item.0, substitute binds item.1)) (items k cs) ≡ cs
      → IsSeparate cs
      → (row : Record) (name : String) → set_all binds (items k cs) row name ≡ changed cs row name
  set_all-changed binds cs k e h row name =
      ap (λ (r : Record). r name)
        (set_all-apply_all binds (items k cs) row ∙ ap (λ l. apply_all l row) e)
      ∙ apply_all-changed cs row name h
