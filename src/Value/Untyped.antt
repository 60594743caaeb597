-- ===== src/Value/Untyped.antt =====
-- Values that are stored without a type of their own: `to_surreal` and `from_surreal` of src/value.rs
-- at the unknown type.
use toasty_driver_surreal.Prelude.{pos, ◌<◌, ◌≡◌, refl, half64, ltb, true, arith, ℤ}
use toasty_driver_surreal.Error.{ok}
use toasty_driver_surreal.Value.{StmtType, Value, SurValue, Number}
use toasty_driver_surreal.Value.Codec.{Codec}
use toasty_driver_surreal.Value.Encode.{to_surreal, encode_u64}
use toasty_driver_surreal.Value.Decode.{from_surreal}
use toasty_driver_surreal.Value.RoundTrip.{IsLawful}

-- the values that an element of a composite key or a field of a document can hold, within the range
-- of `i64`
abbrev pub IsElement : Value → Type 0
IsElement (Value.u64 n) = n < half64
IsElement (Value.i8 z) = Unit
IsElement (Value.i16 z) = Unit
IsElement (Value.i32 z) = Unit
IsElement (Value.i64 z) = Unit
IsElement (Value.u8 n) = Unit
IsElement (Value.u16 n) = Unit
IsElement (Value.u32 n) = Unit
IsElement (Value.bool b) = Unit
IsElement (Value.string s) = Unit
IsElement (Value.uuid u) = Unit
IsElement (Value.bytes b) = Unit
IsElement Value.null = Unit
IsElement _ = ⊥

-- there is no column type to decode such a value at: an integer of any width comes back as an `i64`
abbrev pub widened : Value → Value
widened (Value.i8 z) = Value.i64 z
widened (Value.i16 z) = Value.i64 z
widened (Value.i32 z) = Value.i64 z
widened (Value.u8 n) = Value.i64 (pos n)
widened (Value.u16 n) = Value.i64 (pos n)
widened (Value.u32 n) = Value.i64 (pos n)
widened (Value.u64 n) = Value.i64 (pos n)
widened v = v

module _ (C : Codec) (L : IsLawful C) where
  unfoldable pub Widens : Value → Type 0
  Widens v =
      (s : SurValue) × (to_surreal C v ≡ ok s)
      × (from_surreal C s StmtType.unknown ≡ ok (widened v))

  integer_widens :
      (z : ℤ) → from_surreal C (SurValue.number (Number.int z)) StmtType.unknown ≡ ok (Value.i64 z)
  unfolding from_surreal
  integer_widens z = rw (L.to_int_of_int z) refl

  pub element-Widens : (v : Value) → IsElement v → Widens v
  unfolding Widens to_surreal encode_u64 from_surreal
  element-Widens (Value.u64 n) h =
      let small : ltb n half64 ≡ true = ground arith in
      (SurValue.number (Number.int (pos n)), rw small refl, integer_widens (pos n))
  element-Widens (Value.i8 z) h = (_, refl, integer_widens z)
  element-Widens (Value.i16 z) h = (_, refl, integer_widens z)
  element-Widens (Value.i32 z) h = (_, refl, integer_widens z)
  element-Widens (Value.i64 z) h = (_, refl, integer_widens z)
  element-Widens (Value.u8 n) h = (_, refl, integer_widens (pos n))
  element-Widens (Value.u16 n) h = (_, refl, integer_widens (pos n))
  element-Widens (Value.u32 n) h = (_, refl, integer_widens (pos n))
  element-Widens (Value.bool b) h = (_, refl, refl)
  element-Widens (Value.string s) h = (_, refl, refl)
  element-Widens (Value.uuid u) h = (_, refl, refl)
  element-Widens (Value.bytes b) h = (_, refl, refl)
  element-Widens Value.null h = (_, refl, refl)
  element-Widens _ h = absurd h
