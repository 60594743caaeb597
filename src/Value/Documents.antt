-- ===== src/Value/Documents.antt =====
-- Documents, the arm of `to_surreal` in src/value.rs that fills an object field by field.
use toasty_driver_surreal.Prelude.{
  String, Option, none, some, true, false, ◌≡◌, refl, sym, ◌∙◌, subst, str_eq, eq_iff, arith,
  Bool-cases, inl, inr,
}
use toasty_driver_surreal.Text.{str_eq_comm}
use toasty_driver_surreal.Error.{ok, ◌>>=◌}
use toasty_driver_surreal.Value.{StmtType, Value, Fields, SurValue, Object, is_null}
use toasty_driver_surreal.Value.Codec.{Codec}
use toasty_driver_surreal.Value.Encode.{to_surreal, to_surreal_fields}
use toasty_driver_surreal.Value.Decode.{from_surreal}
use toasty_driver_surreal.Value.RoundTrip.{IsLawful}
use toasty_driver_surreal.Value.Untyped.{IsElement, widened, Widens, element-Widens}
use toasty_driver_surreal.Op.Insert.Content.{IsMap}

-- no field has the name
abbrev NotIn : String → Fields → Type 0
NotIn name Fields.end = Unit
NotIn name (Fields.field n v rest) = (str_eq name n ≡ false) × NotIn name rest

-- The names of the fields differ.
abbrev pub AreDistinct : Fields → Type 0
AreDistinct Fields.end = Unit
AreDistinct (Fields.field n v rest) = NotIn n rest × AreDistinct rest

abbrev pub AreElements : Fields → Type 0
AreElements Fields.end = Unit
AreElements (Fields.field n v rest) = IsElement v × AreElements rest

false-true : false ≡ true → ⊥
false-true h = cc

module _ (C : Codec) where
  null_field :
      (n : String) (v : Value) (rest : Fields) (before : Object)
      → is_null v ≡ true
      → to_surreal_fields C (Fields.field n v rest) before ≡ to_surreal_fields C rest before
  unfolding to_surreal_fields
  null_field n Value.null rest before h = refl
  null_field n _ rest before h = absurd (false-true h)

  full_field :
      (n : String) (v : Value) (rest : Fields) (before : Object)
      → is_null v ≡ false
      → to_surreal_fields C (Fields.field n v rest) before
        ≡ (to_surreal C v >>= λ s. to_surreal_fields C rest (C.object_insert n s before))
  unfolding to_surreal_fields
  full_field n Value.null rest before h = absurd (false-true (sym h))
  full_field n _ rest before h = refl

  -- what is found under the name of a field with the value `v`
  abbrev pub Reads : Value → Option SurValue → Type 0
  Reads v found =
      (is_null v ≡ true → found ≡ none)
      × (is_null v ≡ false
          → (s : SurValue) × (found ≡ some s)
            × (from_surreal C s StmtType.unknown ≡ ok (widened v)))

  -- what is found under a name: the value of the field of that name, and what was there before when
  -- there is no such field
  abbrev pub Holds : Option SurValue → String → Fields → Option SurValue → Type 0
  Holds before name Fields.end found = found ≡ before
  Holds before name (Fields.field n v rest) found =
      (str_eq n name ≡ true → Reads v found)
      × (str_eq n name ≡ false → Holds before name rest found)

same_name : (a b : String) → str_eq a b ≡ true → a ≡ b
same_name a b h = ground (arith, eq_iff a b)

module _ (C : Codec) where
  Holds-before :
      (name : String) (obj : Fields) (before found : Option SurValue)
      → NotIn name obj
      → Holds C before name obj found
      → found ≡ before
  Holds-before name Fields.end before found h held = held
  Holds-before name (Fields.field n v rest) before found (d, ds) held =
      Holds-before name rest before found ds (held.1 (str_eq_comm name n d))

module _ (C : Codec) (L : IsLawful C) (lookup : Object → String → Option SurValue)
    (laws : IsMap C lookup) where
  -- no name of a field is in the object yet
  abbrev Fresh : Object → Fields → Type 0
  Fresh o Fields.end = Unit
  Fresh o (Fields.field n v rest) = (lookup o n ≡ none) × Fresh o rest

  Fresh-object_insert :
      (n : String) (s : SurValue) (o : Object) (obj : Fields)
      → NotIn n obj
      → Fresh o obj
      → Fresh (C.object_insert n s o) obj
  Fresh-object_insert n s o Fields.end d h = tt
  Fresh-object_insert n s o (Fields.field m v rest) (d, ds) (h, hs) =
      (laws.others n m s o d ∙ h, Fresh-object_insert n s o rest ds hs)

  Filled : Fields → Object → Type 0
  Filled obj before =
      (out : Object) × (to_surreal_fields C obj before ≡ ok out)
      × ((name : String) → Holds C (lookup before name) name obj (lookup out name))

  to_surreal_fields-Filled :
      (obj : Fields) (before : Object)
      → AreDistinct obj
      → AreElements obj
      → Fresh before obj
      → Filled obj before
  unfolding to_surreal_fields Filled Widens
  to_surreal_fields-Filled Fields.end before d h f = (before, refl, λ name. refl)
  to_surreal_fields-Filled (Fields.field n v rest) before (d, ds) (h, hs) (f, fs) =
      elim (Bool-cases (is_null v)) [
        | inl null ↦
            let (out, e, held) = to_surreal_fields-Filled rest before ds hs fs in
            (
              out,
              null_field C n v rest before null ∙ e,
              λ name. (
                λ same. (
                  λ _.
                      Holds-before C name rest (lookup before name) (lookup out name)
                        (subst (λ x. NotIn x rest) (same_name n name same) d) (held name)
                      ∙ subst (λ x. lookup before x ≡ none) (same_name n name same) f,
                  λ full. absurd (false-true (sym full ∙ null)),
                ),
                λ other. held name,
              ),
            )
        | inr full ↦
            let (s, made, back) = element-Widens C L v h in
            let filled = C.object_insert n s before in
            let (out, e, held) =
              to_surreal_fields-Filled rest filled ds hs
                (Fresh-object_insert n s before rest d fs) in
            (
              out,
              full_field C n v rest before full ∙ rw made e,
              λ name. (
                λ same. (
                  λ null. absurd (false-true (sym full ∙ null)),
                  λ _. (
                    s,
                    Holds-before C name rest (lookup filled name) (lookup out name)
                          (subst (λ x. NotIn x rest) (same_name n name same) d) (held name)
                        ∙ subst (λ x. lookup filled x ≡ some s) (same_name n name same)
                            (laws.inserted n s before f),
                    back,
                  ),
                ),
                λ other.
                    subst (λ b. Holds C b name rest (lookup out name))
                      (laws.others n name s before other) (held name),
              ),
            )
      ]

  Fresh-end : (obj : Fields) → Fresh Object.end obj
  Fresh-end Fields.end = tt
  Fresh-end (Fields.field n v rest) = (laws.empty n, Fresh-end rest)

  -- For every lawful codec whose objects keep what is inserted under its name, a document with
  -- distinct names, whose fields are integers up to `i64::MAX`, Booleans, texts, bytes, UUIDs or
  -- nulls, is stored as an object: under the name of a field that is null there is nothing, under the
  -- name of any other field there is its value, which is read back with an integer as an `i64` of the
  -- same number, and under any other name there is nothing.
  pub to_surreal-Holds :
      (obj : Fields)
      → AreDistinct obj
      → AreElements obj
      → (out : Object) × (to_surreal C (Value.object obj) ≡ ok (SurValue.object out))
        × ((name : String) → Holds C none name obj (lookup out name))
  unfolding to_surreal Filled
  to_surreal-Holds obj d h =
      let (out, e, held) = to_surreal_fields-Filled obj Object.end d h (Fresh-end obj) in
      (
        out,
        rw e refl,
        λ name. subst (λ b. Holds C b name obj (lookup out name)) (laws.empty name) (held name),
      )
