-- ===== src/Value/Json/Errors.antt =====
-- What the native JSON codec refuses, and with which error.
use toasty_driver_surreal.Prelude.{
  ℕ, ℤ, ◌≡◌, Option, none, some, ◌⊎◌, subst, Option-cases, inl, inr,
}
use toasty_driver_surreal.Error.{Error, Result, ok, err, serialization_failure, ◌>>=◌}
use toasty_driver_surreal.Value.{
  Value, Number, SurValue, Array, Object, JsonValue, JsonValues, JsonMembers,
}
use toasty_driver_surreal.Value.Codec.{
  Codec, Parsed, parsed, malformed, Printed, printed, unprintable,
}
use toasty_driver_surreal.Value.Json.{
  json_number, json_value_to_surreal, json_values_to_array, json_members_to_object,
  parsed_to_surreal, json_text_to_surreal, decimal_json, number_json, surreal_to_json_value,
  array_to_json_values, object_to_json_members, json_text, surreal_json_to_text,
}

abbrev pub IsSerializationFailure : Error → Type 0
IsSerializationFailure (serialization_failure message) = Unit
IsSerializationFailure _ = ⊥

-- an error, if there is one, is a serialization failure
abbrev FailsAsJson {ℓ} : {A : Type ℓ} → Result A → Type 0
FailsAsJson (ok a) = Unit
FailsAsJson (err e) = IsSerializationFailure e

FailsAsJson->>= {ℓ κ} :
    {A : Type ℓ} {B : Type κ} (m : Result A) (f : A → Result B)
    → FailsAsJson m
    → ((a : A) → FailsAsJson (f a))
    → FailsAsJson (m >>= f)
FailsAsJson->>= (ok a) f h k = k a
FailsAsJson->>= (err e) f h k = h

module _ (C : Codec) where
  json_number_fails : (i : Option ℤ) (u f : Option ℕ) → FailsAsJson (json_number C i u f)
  unfolding json_number
  json_number_fails (some i) u f = tt
  json_number_fails none (some u) f = tt
  json_number_fails none none (some f) = tt
  json_number_fails none none none = tt

  mutual
    unfolding json_value_to_surreal

    from_json_fails : (j : JsonValue) → FailsAsJson (json_value_to_surreal C j)
    from_json_fails JsonValue.null = tt
    from_json_fails (JsonValue.bool b) = tt
    from_json_fails (JsonValue.number n) = json_number_fails (C.as_i64 n) (C.as_u64 n) (C.as_f64 n)
    from_json_fails (JsonValue.string s) = tt
    from_json_fails (JsonValue.array vs) = FailsAsJson->>= _ _ (from_values_fails vs) (λ a. tt)
    from_json_fails (JsonValue.object ms) =
        FailsAsJson->>= _ _ (from_members_fails ms Object.end) (λ a. tt)

    from_values_fails : (vs : JsonValues) → FailsAsJson (json_values_to_array C vs)
    from_values_fails JsonValues.nil = tt
    from_values_fails (JsonValues.cons v vs) =
        FailsAsJson->>= _ _ (from_json_fails v)
          (λ a. FailsAsJson->>= _ _ (from_values_fails vs) (λ b. tt))

    from_members_fails :
        (ms : JsonMembers) (out : Object) → FailsAsJson (json_members_to_object C ms out)
    from_members_fails JsonMembers.end out = tt
    from_members_fails (JsonMembers.member n v ms) out =
        FailsAsJson->>= _ _ (from_json_fails v) (λ a. from_members_fails ms _)

  parsed_fails : (p : Parsed) → FailsAsJson (parsed_to_surreal C p)
  unfolding parsed_to_surreal
  parsed_fails (parsed j) = from_json_fails j
  parsed_fails (malformed l c t) = tt

  text_fails : (v : Value) → FailsAsJson (json_text_to_surreal C v)
  unfolding json_text_to_surreal
  text_fails Value.null = tt
  text_fails (Value.string t) = parsed_fails (C.parse_json t)
  text_fails _ = tt

  decimal_fails : (p : Parsed) → FailsAsJson (decimal_json C p)
  unfolding decimal_json
  decimal_fails (parsed (JsonValue.number n)) = tt
  decimal_fails (parsed _) = tt
  decimal_fails (malformed l c t) = tt

  number_fails : (n : Number) → FailsAsJson (number_json C n)
  unfolding number_json
  number_fails (Number.int i) = tt
  number_fails (Number.float f) = elim (Option-cases (C.number_from_f64 f)) [
    | inl e ↦ rw e tt
    | inr (n, e) ↦ rw e tt
  ]
  number_fails (Number.decimal d) = decimal_fails (C.parse_json (C.decimal_to_string d))

  mutual
    unfolding surreal_to_json_value

    to_json_fails : (s : SurValue) → FailsAsJson (surreal_to_json_value C s)
    to_json_fails (SurValue.number n) = number_fails n
    to_json_fails (SurValue.array a) = FailsAsJson->>= _ _ (to_values_fails a) (λ b. tt)
    to_json_fails (SurValue.object o) =
        FailsAsJson->>= _ _ (to_members_fails o JsonMembers.end) (λ b. tt)
    to_json_fails _ = tt

    to_values_fails : (a : Array) → FailsAsJson (array_to_json_values C a)
    to_values_fails Array.nil = tt
    to_values_fails (Array.cons s a) =
        FailsAsJson->>= _ _ (to_json_fails s)
          (λ x. FailsAsJson->>= _ _ (to_values_fails a) (λ y. tt))

    to_members_fails :
        (o : Object) (out : JsonMembers) → FailsAsJson (object_to_json_members C o out)
    to_members_fails Object.end out = tt
    to_members_fails (Object.entry n s o) out =
        FailsAsJson->>= _ _ (to_json_fails s) (λ x. to_members_fails o _)

  printed_fails : (p : Printed) → FailsAsJson (json_text C p)
  unfolding json_text
  printed_fails (printed t) = tt
  printed_fails (unprintable t) = tt

  native_fails : (s : SurValue) → FailsAsJson (surreal_json_to_text C s)
  unfolding surreal_json_to_text
  native_fails SurValue.none = tt
  native_fails s =
      FailsAsJson->>= (surreal_to_json_value C s) _ (to_json_fails s)
        (λ j. printed_fails (C.print_json j))

  -- Whatever the text, the Toasty value or the stored value, an error of the native JSON codec is a
  -- serialization failure, on the way in and on the way out.
  pub json_errors :
      (v : Value) (s : SurValue) (e : Error)
      → (json_text_to_surreal C v ≡ err e) ⊎ (surreal_json_to_text C s ≡ err e)
      → IsSerializationFailure e
  json_errors v s e (inl h) = subst FailsAsJson h (text_fails v)
  json_errors v s e (inr h) = subst FailsAsJson h (native_fails s)
