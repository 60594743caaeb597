-- ===== src/Value/Json/Strict.antt =====
-- Which stored values a native JSON column can be read from.
use toasty_driver_surreal.Prelude.{ℕ, ◌≡◌, refl, some, ◌↔◌, Option-cases, inl, inr}
use toasty_driver_surreal.Error.{Result, ok, >>=-eq-ok}
use toasty_driver_surreal.Value.{
  Number, SurValue, Array, Object, JsonValue, JsonValues, JsonMembers,
}
use toasty_driver_surreal.Value.Codec.{Codec, Parsed, parsed, malformed}
use toasty_driver_surreal.Value.Json.{
  decimal_json, number_json, surreal_to_json_value, array_to_json_values, object_to_json_members,
}

module _ (C : Codec) where
  -- an integer, a finite float, or a decimal whose text is a JSON number
  abbrev pub IsJsonNumber : Number → Type 0
  IsJsonNumber (Number.int i) = Unit
  IsJsonNumber (Number.float f) = (n : ℕ) × (C.number_from_f64 f ≡ some n)
  IsJsonNumber (Number.decimal d) =
      (n : ℕ) × (C.parse_json (C.decimal_to_string d) ≡ parsed (JsonValue.number n))

  -- No `NONE`, bytes, UUID, record id or any other variant at any depth.
  unfoldable mutual
    pub IsJson : SurValue → Type 0
    IsJson SurValue.null = Unit
    IsJson (SurValue.bool b) = Unit
    IsJson (SurValue.number n) = IsJsonNumber n
    IsJson (SurValue.string s) = Unit
    IsJson (SurValue.array a) = AllJson a
    IsJson (SurValue.object o) = MembersJson o
    IsJson _ = ⊥

    pub AllJson : Array → Type 0
    AllJson Array.nil = Unit
    AllJson (Array.cons s a) = IsJson s × AllJson a

    pub MembersJson : Object → Type 0
    MembersJson Object.end = Unit
    MembersJson (Object.entry n s o) = IsJson s × MembersJson o

  abbrev Answers {ℓ} : {A : Type ℓ} → Result A → Type ℓ
  Answers {A} r = (a : A) × (r ≡ ok a)

  decimal_sound :
      (p : Parsed) {j : JsonValue}
      → decimal_json C p ≡ ok j
      → (n : ℕ) × (p ≡ parsed (JsonValue.number n))
  unfolding decimal_json
  decimal_sound (parsed (JsonValue.number n)) h = (n, refl)
  decimal_sound (parsed _) h = cc
  decimal_sound (malformed l c t) h = cc

  number_sound : (n : Number) {j : JsonValue} → number_json C n ≡ ok j → IsJsonNumber n
  unfolding number_json
  number_sound (Number.int i) h = tt
  number_sound (Number.float f) {j} h = elim (Option-cases (C.number_from_f64 f)) [
    | inr found ↦ found
    | inl e ↦ cc
  ]
  number_sound (Number.decimal d) h = decimal_sound _ h

  mutual
    unfolding IsJson surreal_to_json_value

    IsJson-sound : (s : SurValue) {j : JsonValue} → surreal_to_json_value C s ≡ ok j → IsJson s
    IsJson-sound SurValue.null h = tt
    IsJson-sound (SurValue.bool b) h = tt
    IsJson-sound (SurValue.number n) h = number_sound n h
    IsJson-sound (SurValue.string s) h = tt
    IsJson-sound (SurValue.array a) h = all_sound a (>>=-eq-ok _ _ h).1
    IsJson-sound (SurValue.object o) h = members_sound o JsonMembers.end (>>=-eq-ok _ _ h).1
    IsJson-sound _ h = cc

    all_sound : (a : Array) {vs : JsonValues} → array_to_json_values C a ≡ ok vs → AllJson a
    all_sound Array.nil h = tt
    all_sound (Array.cons s a) h =
        let (x, e, k) = >>=-eq-ok _ _ h in (IsJson-sound s e, all_sound a (>>=-eq-ok _ _ k).1)

    members_sound :
        (o : Object) (out : JsonMembers) {ms : JsonMembers}
        → object_to_json_members C o out ≡ ok ms
        → MembersJson o
    members_sound Object.end out h = tt
    members_sound (Object.entry n s o) out h =
        let (x, e, k) = >>=-eq-ok _ _ h in (IsJson-sound s e, members_sound o _ k)

  number_complete : (n : Number) → IsJsonNumber n → Answers (number_json C n)
  unfolding number_json decimal_json
  number_complete (Number.int i) h = (JsonValue.number (C.number_from_i64 i), refl)
  number_complete (Number.float f) (n, e) = (JsonValue.number n, rw e refl)
  number_complete (Number.decimal d) (n, e) = (JsonValue.number n, rw e refl)

  mutual
    unfolding IsJson surreal_to_json_value

    json_complete : (s : SurValue) → IsJson s → Answers (surreal_to_json_value C s)
    json_complete SurValue.null h = (JsonValue.null, refl)
    json_complete (SurValue.bool b) h = (JsonValue.bool b, refl)
    json_complete (SurValue.number n) h = number_complete n h
    json_complete (SurValue.string s) h = (JsonValue.string s, refl)
    json_complete (SurValue.array a) h =
        let (vs, e) = all_complete a h in (JsonValue.array vs, rw e refl)
    json_complete (SurValue.object o) h =
        let (ms, e) = members_complete o JsonMembers.end h in (JsonValue.object ms, rw e refl)
    json_complete _ h = elim h [ ]

    all_complete : (a : Array) → AllJson a → Answers (array_to_json_values C a)
    all_complete Array.nil h = (JsonValues.nil, refl)
    all_complete (Array.cons s a) h =
        let (j, e) = json_complete s h.0 in
        let (vs, es) = all_complete a h.1 in (JsonValues.cons j vs, rw (e, es) refl)

    members_complete :
        (o : Object) (out : JsonMembers) → MembersJson o → Answers (object_to_json_members C o out)
    members_complete Object.end out h = (out, refl)
    members_complete (Object.entry n s o) out h =
        let (j, e) = json_complete s h.0 in
        let (ms, es) = members_complete o (C.map_insert n j out) h.1 in (ms, rw (e, es) refl)

  -- The strict conversion accepts exactly the JSON-compatible values: one that holds a `NONE`, a
  -- non-finite float, bytes, a UUID, a record id or another variant anywhere is refused, and every
  -- other value is converted.
  pub accepts_iff :
      (s : SurValue) → ((j : JsonValue) × (surreal_to_json_value C s ≡ ok j)) ↔ IsJson s
  accepts_iff s = (λ (j, e). IsJson-sound s e, json_complete s)
