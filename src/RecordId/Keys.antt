-- ===== src/RecordId/Keys.antt =====
-- Record id keys are read back as the primary keys that they were made of.
use toasty_driver_surreal.Prelude.{
  ℕ, pos, ◌<◌, ◌≡◌, refl, ap, sym, ◌∙◌, false, half64, ltb, leb, Bool-cases, inl, inr, arith, List,
  [], ◌∷◌, map, All, wrap_signed_fits, wrap_unsigned-pos,
}
use toasty_driver_surreal.Error.{ok, IsOk, ◌>>=◌, ok-injective, not_ok}
use toasty_driver_surreal.Value.{StmtType, Value, RecordIdKey, Array, to_values}
use toasty_driver_surreal.Value.Codec.{Codec}
use toasty_driver_surreal.Value.Encode.{to_surreal}
use toasty_driver_surreal.Value.Decode.{from_surreal_items, record_id_key_to_stmt}
use toasty_driver_surreal.Value.RoundTrip.{IsLawful, HasType, int_case}
use toasty_driver_surreal.Value.Untyped.{IsElement, widened, Widens, element-Widens}
use toasty_driver_surreal.RecordId.{
  scalar_to_key, record_id_key, key_elements, scalar_key_value, composite_key,
}

module _ (C : Codec) (L : IsLawful C) where
  -- what an integer key decodes to
  abbrev Decodes : RecordIdKey → StmtType → Value → Type 0
  Decodes k ty v = record_id_key_to_stmt C k ty ≡ ok v

  moved :
      {k k' : RecordIdKey} (ty : StmtType) {v : Value}
      → ok k ≡ ok k'
      → Decodes k ty v
      → Decodes k' ty v
  moved ty e d = ap (λ x. record_id_key_to_stmt C x ty) (sym (ok-injective e)) ∙ d

  -- For every lawful codec, a scalar primary key of its column's type that can be a record id key
  -- is decoded, at that type, to itself.
  record_id_key_to_stmt-scalar_to_key :
      (v : Value) (ty : StmtType) (k : RecordIdKey)
      → HasType C v ty
      → scalar_to_key C v ≡ ok k
      → record_id_key_to_stmt C k ty ≡ ok v
  unfolding HasType scalar_to_key record_id_key_to_stmt
  record_id_key_to_stmt-scalar_to_key (Value.i8 z) StmtType.i8 k h e =
      moved _ e (rw (int_case C L z, wrap_signed_fits _ z h) refl)
  record_id_key_to_stmt-scalar_to_key (Value.i16 z) StmtType.i16 k h e =
      moved _ e (rw (int_case C L z, wrap_signed_fits _ z h) refl)
  record_id_key_to_stmt-scalar_to_key (Value.i32 z) StmtType.i32 k h e =
      moved _ e (rw (int_case C L z, wrap_signed_fits _ z h) refl)
  record_id_key_to_stmt-scalar_to_key (Value.i64 z) StmtType.i64 k h e =
      moved _ e (rw (int_case C L z) refl)
  record_id_key_to_stmt-scalar_to_key (Value.i64 z) StmtType.unknown k h e =
      moved _ e (rw (L.to_int_of_int z) refl)
  record_id_key_to_stmt-scalar_to_key (Value.u8 n) StmtType.u8 k h e =
      moved _ e (rw (int_case C L (pos n), wrap_unsigned-pos _ n h) refl)
  record_id_key_to_stmt-scalar_to_key (Value.u16 n) StmtType.u16 k h e =
      moved _ e (rw (int_case C L (pos n), wrap_unsigned-pos _ n h) refl)
  record_id_key_to_stmt-scalar_to_key (Value.u32 n) StmtType.u32 k h e =
      moved _ e (rw (int_case C L (pos n), wrap_unsigned-pos _ n h) refl)
  record_id_key_to_stmt-scalar_to_key (Value.u64 n) StmtType.u64 k h e =
      elim (Bool-cases (ltb n half64)) [
        | inl small ↦ moved _ (rw small at e) (rw (wrap_unsigned-pos _ n h) refl)
        | inr big ↦ absurd (not_ok (rw big at e))
      ]
  record_id_key_to_stmt-scalar_to_key (Value.string s) StmtType.string k h e = moved _ e refl
  record_id_key_to_stmt-scalar_to_key (Value.string s) StmtType.unknown k h e = moved _ e refl
  record_id_key_to_stmt-scalar_to_key (Value.uuid u) ty k h e = moved _ e refl
  record_id_key_to_stmt-scalar_to_key (Value.bool x) ty k h e = absurd (not_ok e)
  record_id_key_to_stmt-scalar_to_key (Value.f32 x) ty k h e = absurd (not_ok e)
  record_id_key_to_stmt-scalar_to_key (Value.f64 x) ty k h e = absurd (not_ok e)
  record_id_key_to_stmt-scalar_to_key (Value.bytes x) ty k h e = absurd (not_ok e)
  record_id_key_to_stmt-scalar_to_key (Value.list x) ty k h e = absurd (not_ok e)
  record_id_key_to_stmt-scalar_to_key (Value.record_value x) ty k h e = absurd (not_ok e)
  record_id_key_to_stmt-scalar_to_key (Value.object x) ty k h e = absurd (not_ok e)
  record_id_key_to_stmt-scalar_to_key (Value.other x) ty k h e = absurd (not_ok e)
  record_id_key_to_stmt-scalar_to_key Value.null ty k h e = absurd (not_ok e)
  record_id_key_to_stmt-scalar_to_key _ ty k h e = elim h [ ]

  -- For every lawful codec, two keys of one type that give the same record id key are the same
  -- value: no two rows of a table share a record.
  pub scalar_to_key-injective :
      (v w : Value) (ty : StmtType) (k : RecordIdKey)
      → HasType C v ty
      → HasType C w ty
      → scalar_to_key C v ≡ ok k
      → scalar_to_key C w ≡ ok k
      → v ≡ w
  scalar_to_key-injective v w ty k hv hw ev ew = ok-injective (
      sym (record_id_key_to_stmt-scalar_to_key v ty k hv ev)
      ∙ record_id_key_to_stmt-scalar_to_key w ty k hw ew)

  elements_widen :
      (vs : List Value)
      → All IsElement vs
      → (a : Array) × (key_elements C (to_values vs) ≡ ok a)
        × (from_surreal_items C a StmtType.unknown ≡ ok (to_values (map widened vs)))
  unfolding key_elements scalar_key_value from_surreal_items Widens
  elements_widen [] h = (Array.nil, refl, refl)
  elements_widen (v ∷ vs) (h, hs) =
      let (s, e, d) = element-Widens C L v h in
      let (a, es, ds) = elements_widen vs hs in (Array.cons s a, rw (e, es) refl, rw (d, ds) refl)

  -- For every lawful codec, in a table with several key columns a composite key is accepted when its
  -- elements are integers of any width up to `i64::MAX`, Booleans, texts, bytes, UUIDs or nulls, and
  -- it is decoded to the record of the same elements in the same order, the integers as `i64`s of the same
  -- number, whatever the type that is asked for.
  pub composite_round_trip :
      (vs : List Value) (arity : ℕ) (ty : StmtType)
      → 1 < arity
      → All IsElement vs
      → (record_id_key C (Value.record_value (to_values vs)) arity >>= λ k.
          record_id_key_to_stmt C k ty)
        ≡ ok (Value.record_value (to_values (map widened vs)))
  unfolding record_id_key composite_key record_id_key_to_stmt
  composite_round_trip vs arity ty h elements =
      let (a, e, d) = elements_widen vs elements in
      let many : leb arity 1 ≡ false = ground arith in rw (many, e) (rw d refl)

module _ (C : Codec) where
  -- each of the values is encoded
  abbrev pub AllEncoded : List Value → Type 0
  AllEncoded vs = All (λ v. IsOk (to_surreal C v)) vs
