-- ===== src/Value/Numeric.antt =====
-- `number_to_stmt` and `number_to_u64` of src/value.rs.
use toasty_driver_surreal.Prelude.{
  ℕ, ◌+◌, ℤ, pos, negsuc, Option, none, some, Bool, true, not, ◌<>◌, wrap_unsigned, wrap_signed,
  half8, half16, half32, half64, ◌==◌,
}
use toasty_driver_surreal.Error.{Result, ok, err, unsupported_feature}
use toasty_driver_surreal.Value.{StmtType, Value, Number}
use toasty_driver_surreal.Value.Codec.{Codec}

-- `unwrap_or(0)` on integers and on the bits of floats
abbrev pub int_or_zero : Option ℤ → ℤ
int_or_zero none = pos 0
int_or_zero (some z) = z

abbrev pub or_zero : Option ℕ → ℕ
or_zero none = 0
or_zero (some n) = n

abbrev is_nonzero : ℤ → Bool
is_nonzero (pos n) = not (n == 0)
is_nonzero (negsuc n) = true

module _ (C : Codec) where
  unfoldable pub number_to_u64 : Number → ℕ
  unfolding wrap_unsigned
  number_to_u64 (Number.int v) = wrap_unsigned (half64 + half64) v
  number_to_u64 (Number.float v) = C.f64_to_u64 v
  number_to_u64 (Number.decimal v) = or_zero (C.decimal_to_u64 v)

  -- the arm for `Type::Unknown`
  untyped : Option ℤ → Number → Value
  untyped (some i) n = Value.i64 i
  untyped none n = Value.f64 (or_zero (C.number_to_f64 n))

  unfoldable pub number_to_stmt : Number → StmtType → Result Value
  unfolding untyped wrap_unsigned wrap_signed number_to_u64
  number_to_stmt n StmtType.bool = ok (Value.bool (is_nonzero (int_or_zero (C.number_to_int n))))
  number_to_stmt n StmtType.i8 = ok (Value.i8 (wrap_signed half8 (int_or_zero (C.number_to_int n))))
  number_to_stmt n StmtType.i16 =
      ok (Value.i16 (wrap_signed half16 (int_or_zero (C.number_to_int n))))
  number_to_stmt n StmtType.i32 =
      ok (Value.i32 (wrap_signed half32 (int_or_zero (C.number_to_int n))))
  number_to_stmt n StmtType.i64 = ok (Value.i64 (int_or_zero (C.number_to_int n)))
  number_to_stmt n StmtType.u8 =
      ok (Value.u8 (wrap_unsigned (half8 + half8) (int_or_zero (C.number_to_int n))))
  number_to_stmt n StmtType.u16 =
      ok (Value.u16 (wrap_unsigned (half16 + half16) (int_or_zero (C.number_to_int n))))
  number_to_stmt n StmtType.u32 =
      ok (Value.u32 (wrap_unsigned (half32 + half32) (int_or_zero (C.number_to_int n))))
  number_to_stmt n StmtType.u64 = ok (Value.u64 (number_to_u64 n))
  number_to_stmt n StmtType.f32 = ok (Value.f32 (C.f64_to_f32 (or_zero (C.number_to_f64 n))))
  number_to_stmt n StmtType.f64 = ok (Value.f64 (or_zero (C.number_to_f64 n)))
  number_to_stmt n StmtType.unknown = ok (untyped (C.number_to_int n) n)
  number_to_stmt n ty = err (
      unsupported_feature
        ("SurrealDB returned a number for a non-numeric column type: " <> C.debug_type ty))
