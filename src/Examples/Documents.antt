-- ===== src/Examples/Documents.antt =====
-- The theorem on documents at a concrete input.
use toasty_driver_surreal.Prelude.{◌≡◌, refl, none, String}
use toasty_driver_surreal.Error.{ok}
use toasty_driver_surreal.Value.{Value, Fields, SurValue, Object}
use toasty_driver_surreal.Value.Encode.{to_surreal}
use toasty_driver_surreal.Value.Documents.{to_surreal-Holds, Holds}
use toasty_driver_surreal.Examples.Samples.{codec, codec-IsLawful, lookup}
use toasty_driver_surreal.Examples.Writes.{lookup-IsMap}

-- a document with a null field between two others
abbrev address : Fields
address =
    Fields.field "street" (Value.string "High Street")
      (Fields.field "suffix" Value.null (Fields.field "number" (Value.u16 12) Fields.end))

to_surreal-Holds_example :
    (out : Object) × (to_surreal codec (Value.object address) ≡ ok (SurValue.object out))
    × ((name : String) → Holds codec none name address (lookup out name))
to_surreal-Holds_example =
    to_surreal-Holds codec codec-IsLawful lookup lookup-IsMap address
      ((refl, (refl, tt)), ((refl, tt), (tt, tt))) (tt, (tt, (tt, tt)))
