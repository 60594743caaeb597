-- ===== src/Examples/Keys.antt =====
-- The theorems on record id keys at concrete inputs.
use toasty_driver_surreal.Prelude.{ℕ, List, [], ◌∷◌, map, pos, ◌≡◌, arith}
use toasty_driver_surreal.Error.{ok, ◌>>=◌}
use toasty_driver_surreal.Value.{StmtType, Value, to_values}
use toasty_driver_surreal.Value.Decode.{record_id_key_to_stmt}
use toasty_driver_surreal.RecordId.{record_id_key}
use toasty_driver_surreal.RecordId.Keys.{composite_round_trip}
use toasty_driver_surreal.Value.Untyped.{widened}
use toasty_driver_surreal.Examples.Samples.{codec, codec-IsLawful}

abbrev elements : List Value
elements = Value.string "a" ∷ Value.i64 (pos 3) ∷ Value.u32 7 ∷ []

composite_round_trip_example :
    (record_id_key codec (Value.record_value (to_values elements)) 3 >>= λ k.
    record_id_key_to_stmt codec k StmtType.unknown)
    ≡ ok (Value.record_value (to_values (map widened elements)))
composite_round_trip_example =
    composite_round_trip codec codec-IsLawful elements 3 StmtType.unknown (omega arith)
      (tt, (tt, (tt, tt)))

abbrev large : ℕ
large = 9223372036854775808
