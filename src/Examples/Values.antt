-- ===== src/Examples/Values.antt =====
-- The theorems on values at concrete inputs.
use toasty_driver_surreal.Prelude.{◌≡◌, refl, inr, arith, [], ◌↔◌}
use toasty_driver_surreal.Error.{err, ok, serialization_failure, ◌>>=◌}
use toasty_driver_surreal.Value.{Value, Values, SurValue, Array, Object, JsonValue}
use toasty_driver_surreal.Value.Encode.{to_surreal_for_column}
use toasty_driver_surreal.Value.Decode.{from_surreal_for_column}
use toasty_driver_surreal.Value.Json.{surreal_to_json_value, surreal_json_to_text}
use toasty_driver_surreal.Value.RoundTrip.{column_round_trip, HasType}
use toasty_driver_surreal.Value.Json.RoundTrip.{json_round_trip, Ascending}
use toasty_driver_surreal.Value.Json.Errors.{json_errors, IsSerializationFailure}
use toasty_driver_surreal.Value.Json.Strict.{accepts_iff, IsJson}
use toasty_driver_surreal.Examples.Samples.{
  codec, codec-IsLawful, codec-IsLawfulJson, document, profile, sizes,
}

abbrev two_sizes : Value
two_sizes =
    Value.list (Values.cons (Value.u64 18446744073709551615) (Values.cons Value.null Values.nil))

two_sizes-HasType : HasType codec two_sizes sizes.ty
unfolding HasType
two_sizes-HasType = (omega arith, (tt, tt))

column_round_trip_example :
    (to_surreal_for_column codec two_sizes sizes >>= λ s. from_surreal_for_column codec s sizes)
    ≡ ok two_sizes
column_round_trip_example =
    column_round_trip codec codec-IsLawful two_sizes sizes refl two_sizes-HasType

document-Ascending : Ascending document
unfolding Ascending
document-Ascending = ((refl, tt), tt, (tt, (tt, (tt, tt)), tt))

json_round_trip_example :
    (to_surreal_for_column codec (Value.string "{}") profile >>= λ s.
    from_surreal_for_column codec s profile)
    ≡ ok (Value.string "document")
json_round_trip_example =
    json_round_trip codec codec-IsLawfulJson profile "{}" "document" document refl refl
      document-Ascending refl

abbrev embedded : SurValue
embedded = SurValue.object (Object.entry "a" SurValue.none Object.end)

embedded_refused :
    surreal_json_to_text codec embedded
    ≡ err (serialization_failure "SurrealDB native JSON contained an embedded NONE value")
unfolding surreal_json_to_text surreal_to_json_value
embedded_refused = refl

json_errors_example :
    IsSerializationFailure
      (serialization_failure "SurrealDB native JSON contained an embedded NONE value")
json_errors_example = json_errors codec Value.null embedded _ (inr embedded_refused)

abbrev one_blob : SurValue
one_blob = SurValue.array (Array.cons (SurValue.bytes []) Array.nil)

accepts_iff_example :
    ((j : JsonValue) × (surreal_to_json_value codec one_blob ≡ ok j)) ↔ IsJson codec one_blob
accepts_iff_example = accepts_iff codec one_blob
