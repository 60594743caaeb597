-- ===== src/Value/Json.antt =====
-- The native JSON codec of src/value.rs: Toasty's JSON text to native values and back.
pub mod Order
pub mod RoundTrip
pub mod Errors
pub mod Strict
use toasty_driver_surreal.Prelude.{
  ℕ, ℤ, String, ◌<>◌, Option, none, some, Bool, true, false, if◌then◌else◌,
}
use toasty_driver_surreal.Text.{decimal}
use toasty_driver_surreal.Error.{Result, ok, err, serialization_failure, ok_or, ◌>>=◌}
use toasty_driver_surreal.Value.{
  Value, Number, SurValue, Array, Object, JsonValue, JsonValues, JsonMembers,
}
use toasty_driver_surreal.Value.Codec.{
  Codec, Parsed, parsed, malformed, Printed, printed, unprintable,
}

-- `JsonValue::is_number`
abbrev is_number : JsonValue → Bool
is_number (JsonValue.number n) = true
is_number _ = false

module _ (C : Codec) where
  -- the first of `as_i64`, `as_u64` and `as_f64` that answers
  json_number : Option ℤ → Option ℕ → Option ℕ → Result SurValue
  json_number (some i) u f = ok (SurValue.number (Number.int i))
  json_number none (some u) f = ok (SurValue.number (Number.decimal (C.decimal_from_u64 u)))
  json_number none none (some f) = ok (SurValue.number (Number.float f))
  json_number none none none =
      err (serialization_failure "JSON number cannot be represented by SurrealDB")

  unfoldable mutual
    unfolding json_number

    pub json_value_to_surreal : JsonValue → Result SurValue
    json_value_to_surreal JsonValue.null = ok SurValue.null
    json_value_to_surreal (JsonValue.bool b) = ok (SurValue.bool b)
    json_value_to_surreal (JsonValue.number n) = json_number (C.as_i64 n) (C.as_u64 n) (C.as_f64 n)
    json_value_to_surreal (JsonValue.string s) = ok (SurValue.string s)
    json_value_to_surreal (JsonValue.array values) = do
      out ← json_values_to_array values
      ok (SurValue.array out)
    json_value_to_surreal (JsonValue.object values) = do
      out ← json_members_to_object values Object.end
      ok (SurValue.object out)

    pub json_values_to_array : JsonValues → Result Array
    json_values_to_array JsonValues.nil = ok Array.nil
    json_values_to_array (JsonValues.cons value values) = do
      first ← json_value_to_surreal value
      rest ← json_values_to_array values
      ok (Array.cons first rest)

    -- the loop that fills `out`
    pub json_members_to_object : JsonMembers → Object → Result Object
    json_members_to_object JsonMembers.end out = ok out
    json_members_to_object (JsonMembers.member name value rest) out = do
      converted ← json_value_to_surreal value
      json_members_to_object rest (C.object_insert name converted out)

  parse_failure : ℕ → ℕ → String
  parse_failure line column =
      "invalid JSON for a SurrealDB native JSON column at line "
      <> decimal line
      <> ", column "
      <> decimal column

  parsed_to_surreal : Parsed → Result SurValue
  unfolding json_value_to_surreal parse_failure
  parsed_to_surreal (parsed json) = json_value_to_surreal json
  parsed_to_surreal (malformed line column text) =
      err (serialization_failure (parse_failure line column))

  unfoldable pub json_text_to_surreal : Value → Result SurValue
  unfolding parsed_to_surreal
  json_text_to_surreal Value.null = ok SurValue.none
  json_text_to_surreal (Value.string text) = parsed_to_surreal (C.parse_json text)
  json_text_to_surreal _ = err (
      serialization_failure
        "SurrealDB native JSON columns require serialized JSON text or a database null")

  -- a decimal goes through its text
  decimal_json : Parsed → Result JsonValue
  decimal_json (parsed json) =
      if is_number json
      then ok json
      else err (serialization_failure "SurrealDB native JSON decimal did not produce a JSON number")
  decimal_json (malformed line column text) =
      err
        (serialization_failure ("SurrealDB native JSON decimal could not be serialized: " <> text))

  number_json : Number → Result JsonValue
  unfolding decimal_json
  number_json (Number.int i) = ok (JsonValue.number (C.number_from_i64 i))
  number_json (Number.float f) = do
    n ←
        ok_or (C.number_from_f64 f)
          (serialization_failure "SurrealDB native JSON contained a non-finite number")
    ok (JsonValue.number n)
  number_json (Number.decimal d) = decimal_json (C.parse_json (C.decimal_to_string d))

  unfoldable mutual
    unfolding number_json

    pub surreal_to_json_value : SurValue → Result JsonValue
    surreal_to_json_value SurValue.null = ok JsonValue.null
    surreal_to_json_value (SurValue.bool b) = ok (JsonValue.bool b)
    surreal_to_json_value (SurValue.number n) = number_json n
    surreal_to_json_value (SurValue.string s) = ok (JsonValue.string s)
    surreal_to_json_value (SurValue.array values) = do
      out ← array_to_json_values values
      ok (JsonValue.array out)
    surreal_to_json_value (SurValue.object values) = do
      out ← object_to_json_members values JsonMembers.end
      ok (JsonValue.object out)
    surreal_to_json_value SurValue.none =
        err (serialization_failure "SurrealDB native JSON contained an embedded NONE value")
    surreal_to_json_value _ =
        err (serialization_failure "SurrealDB native JSON column contained a non-JSON value")

    pub array_to_json_values : Array → Result JsonValues
    array_to_json_values Array.nil = ok JsonValues.nil
    array_to_json_values (Array.cons value values) = do
      first ← surreal_to_json_value value
      rest ← array_to_json_values values
      ok (JsonValues.cons first rest)

    pub object_to_json_members : Object → JsonMembers → Result JsonMembers
    object_to_json_members Object.end out = ok out
    object_to_json_members (Object.entry name value rest) out = do
      converted ← surreal_to_json_value value
      object_to_json_members rest (C.map_insert name converted out)

  json_text : Printed → Result Value
  json_text (printed text) = ok (Value.string text)
  json_text (unprintable text) =
      err (serialization_failure ("failed to serialize a SurrealDB native JSON value: " <> text))

  unfoldable pub surreal_json_to_text : SurValue → Result Value
  unfolding surreal_to_json_value json_text
  surreal_json_to_text SurValue.none = ok Value.null
  surreal_json_to_text value = do json ← surreal_to_json_value value; json_text (C.print_json json)
