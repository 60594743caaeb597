-- ===== src/Value/RoundTrip.antt =====
-- A value that is written and read back at its column's type is the same value.
use toasty_driver_surreal.Prelude.{
  ℕ, ℤ, pos, ◌<◌, ◌+◌, ◌≡◌, refl, ap, String, false, some, FitsSigned, half8, half16, half32,
  half64, wrap_signed_fits, wrap_unsigned-pos, ◌^◌, ltb, Bool-cases, inl, inr,
}
use toasty_driver_surreal.Error.{ok, ◌>>=◌}
use toasty_driver_surreal.Schema.{Column}
use toasty_driver_surreal.Value.{StmtType, Value, Values, Number, SurValue, Array, is_json}
use toasty_driver_surreal.Value.Codec.{Codec}
use toasty_driver_surreal.Value.Numeric.{number_to_u64, int_or_zero, or_zero}
use toasty_driver_surreal.Value.Encode.{
  to_surreal, to_surreal_items, to_surreal_for_column, encode_u64,
}
use toasty_driver_surreal.Value.Decode.{from_surreal, from_surreal_items, from_surreal_for_column}

-- What the round trips rely on.
pub record IsLawful (C : Codec) : Type 0 where
  pub to_int_of_int : (z : ℤ) → C.number_to_int (Number.int z) ≡ some z
  pub to_f64_of_float : (f : ℕ) → C.number_to_f64 (Number.float f) ≡ some f
  pub decimal_exact : (u : ℕ) → u < 2 ^ 64 → C.decimal_to_u64 (C.decimal_from_u64 u) ≡ some u
  pub f32_exact : (f : ℕ) → C.f64_to_f32 (C.f32_to_f64 f) ≡ f

module _ (C : Codec) where
  -- A value of a column of type `ty` that can be stored and read back. Documents are none: their null
  -- fields are left out, and the others are read without their types (Value/Documents).
  unfoldable mutual
    pub HasType : Value → StmtType → Type 0
    HasType Value.null ty = Unit
    HasType (Value.bool b) StmtType.bool = Unit
    HasType (Value.i8 z) StmtType.i8 = FitsSigned half8 z
    HasType (Value.i16 z) StmtType.i16 = FitsSigned half16 z
    HasType (Value.i32 z) StmtType.i32 = FitsSigned half32 z
    HasType (Value.i64 z) StmtType.i64 = Unit
    HasType (Value.i64 z) StmtType.unknown = Unit
    HasType (Value.u8 n) StmtType.u8 = n < half8 + half8
    HasType (Value.u16 n) StmtType.u16 = n < half16 + half16
    HasType (Value.u32 n) StmtType.u32 = n < half32 + half32
    HasType (Value.u64 n) StmtType.u64 = n < half64 + half64
    HasType (Value.f32 f) StmtType.f32 = Unit
    HasType (Value.f64 f) StmtType.f64 = Unit
    HasType (Value.string s) StmtType.string = Unit
    HasType (Value.string s) StmtType.unknown = Unit
    HasType (Value.bytes b) ty = Unit
    HasType (Value.uuid u) ty = Unit
    HasType (Value.list vs) (StmtType.list ty) = AllOfType vs ty
    HasType (Value.other n) (StmtType.other k) =
        (s : String) × (C.document_storage_text n ≡ some s)
        × (C.cast (StmtType.other k) s ≡ some (Value.other n))
    HasType _ _ = ⊥

    pub AllOfType : Values → StmtType → Type 0
    AllOfType Values.nil ty = Unit
    AllOfType (Values.cons v vs) ty = HasType v ty × AllOfType vs ty

  -- `v` is encoded, and what it is encoded as decodes to it.
  abbrev pub ReadsBack : Value → StmtType → Type 0
  ReadsBack v ty = (s : SurValue) × (to_surreal C v ≡ ok s) × (from_surreal C s ty ≡ ok v)

  abbrev AllReadBack : Values → StmtType → Type 0
  AllReadBack vs ty =
      (a : Array) × (to_surreal_items C vs ≡ ok a) × (from_surreal_items C a ty ≡ ok vs)

  module _ (L : IsLawful C) where
    -- For every lawful codec, no `u64` loses magnitude: those above `i64::MAX` come back from their
    -- decimal form.
    number_to_u64-encode_u64 : (n : ℕ) → n < 2 ^ 64 → number_to_u64 C (encode_u64 C n) ≡ n
    unfolding number_to_u64 encode_u64
    number_to_u64-encode_u64 n h = elim (Bool-cases (ltb n half64)) [
      | inl small ↦ rw small (wrap_unsigned-pos _ n h)
      | inr big ↦ rw big (ap or_zero (L.decimal_exact n h))
    ]

    pub int_case : (z : ℤ) → int_or_zero (C.number_to_int (Number.int z)) ≡ z
    int_case z = ap int_or_zero (L.to_int_of_int z)

    mutual
      unfolding HasType to_surreal from_surreal encode_u64

      pub reads_back : (v : Value) (ty : StmtType) → HasType v ty → ReadsBack v ty
      reads_back Value.null ty h = (SurValue.null, refl, refl)
      reads_back (Value.bool b) StmtType.bool h = (SurValue.bool b, refl, refl)
      reads_back (Value.i8 z) StmtType.i8 h =
          (SurValue.number (Number.int z), refl, rw (int_case z, wrap_signed_fits _ z h) refl)
      reads_back (Value.i16 z) StmtType.i16 h =
          (SurValue.number (Number.int z), refl, rw (int_case z, wrap_signed_fits _ z h) refl)
      reads_back (Value.i32 z) StmtType.i32 h =
          (SurValue.number (Number.int z), refl, rw (int_case z, wrap_signed_fits _ z h) refl)
      reads_back (Value.i64 z) StmtType.i64 h =
          (SurValue.number (Number.int z), refl, rw (int_case z) refl)
      reads_back (Value.i64 z) StmtType.unknown h =
          (SurValue.number (Number.int z), refl, rw (L.to_int_of_int z) refl)
      reads_back (Value.u8 n) StmtType.u8 h = (
        SurValue.number (Number.int (pos n)),
        refl,
        rw (int_case (pos n), wrap_unsigned-pos _ n h) refl,
      )
      reads_back (Value.u16 n) StmtType.u16 h = (
        SurValue.number (Number.int (pos n)),
        refl,
        rw (int_case (pos n), wrap_unsigned-pos _ n h) refl,
      )
      reads_back (Value.u32 n) StmtType.u32 h = (
        SurValue.number (Number.int (pos n)),
        refl,
        rw (int_case (pos n), wrap_unsigned-pos _ n h) refl,
      )
      reads_back (Value.u64 n) StmtType.u64 h =
          (SurValue.number (encode_u64 C n), refl, rw (number_to_u64-encode_u64 n h) refl)
      reads_back (Value.f32 f) StmtType.f32 h = (
        SurValue.number (Number.float (C.f32_to_f64 f)),
        refl,
        rw (L.to_f64_of_float (C.f32_to_f64 f), L.f32_exact f) refl,
      )
      reads_back (Value.f64 f) StmtType.f64 h =
          (SurValue.number (Number.float f), refl, rw (L.to_f64_of_float f) refl)
      reads_back (Value.string s) StmtType.string h = (SurValue.string s, refl, refl)
      reads_back (Value.string s) StmtType.unknown h = (SurValue.string s, refl, refl)
      reads_back (Value.bytes b) ty h = (SurValue.bytes b, refl, refl)
      reads_back (Value.uuid u) ty h = (SurValue.uuid u, refl, refl)
      reads_back (Value.list vs) (StmtType.list ty) h =
          let (a, e, d) = all_read_back vs ty h in (SurValue.array a, rw e refl, rw d refl)
      reads_back (Value.other n) (StmtType.other k) (s, e, d) =
          (SurValue.string s, rw e refl, rw d refl)
      reads_back _ _ h = elim h [ ]

      pub all_read_back : (vs : Values) (ty : StmtType) → AllOfType vs ty → AllReadBack vs ty
      all_read_back Values.nil ty h = (Array.nil, refl, refl)
      all_read_back (Values.cons v vs) ty h =
          let (s, e, d) = reads_back v ty h.0 in
          let (a, es, ds) = all_read_back vs ty h.1 in
          (Array.cons s a, rw (e, es) refl, rw (d, ds) refl)

    -- A value of the column's type, written to a column that is not a native JSON column, is read
    -- back from it as it was, for every lawful codec: no cast truncates, no list is reordered, and
    -- text forms are cast back.
    pub column_round_trip :
        (v : Value) (column : Column)
        → is_json column.storage_ty ≡ false
        → HasType v column.ty
        → (to_surreal_for_column C v column >>= λ s. from_surreal_for_column C s column) ≡ ok v
    unfolding to_surreal_for_column from_surreal_for_column
    column_round_trip v column plain h = let (s, e, d) = reads_back v column.ty h in rw (plain, e) d
