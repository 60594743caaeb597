-- ===== src/Value/Encode.antt =====
-- The write side of src/value.rs: `to_surreal` and its column-aware forms.
use toasty_driver_surreal.Prelude.{
  ℕ, pos, String, ◌<>◌, true, false, Option, none, some, ltb, if◌then◌else◌, half64,
}
use toasty_driver_surreal.Error.{Result, ok, err, unsupported_feature, ◌>>=◌}
use toasty_driver_surreal.Schema.{Column}
use toasty_driver_surreal.Value.{
  Value, Values, Fields, DbType, Number, SurValue, Array, Object, is_null, is_json,
}
use toasty_driver_surreal.Value.Codec.{Codec}
use toasty_driver_surreal.Value.Json.{json_text_to_surreal}

module _ (C : Codec) where
  -- `i64::try_from` answers up to `i64::MAX`
  unfoldable pub encode_u64 : ℕ → Number
  encode_u64 v = if ltb v half64 then Number.int (pos v) else Number.decimal (C.decimal_from_u64 v)

  encode_other : Option String → Value → Result SurValue
  encode_other (some text) v = ok (SurValue.string text)
  encode_other none v =
      err
        (unsupported_feature ("SurrealDB driver cannot encode value variant: " <> C.debug_value v))

  unfoldable mutual
    unfolding encode_u64 encode_other

    pub to_surreal : Value → Result SurValue
    to_surreal Value.null = ok SurValue.null
    to_surreal (Value.bool v) = ok (SurValue.bool v)
    to_surreal (Value.i8 v) = ok (SurValue.number (Number.int v))
    to_surreal (Value.i16 v) = ok (SurValue.number (Number.int v))
    to_surreal (Value.i32 v) = ok (SurValue.number (Number.int v))
    to_surreal (Value.i64 v) = ok (SurValue.number (Number.int v))
    to_surreal (Value.u8 v) = ok (SurValue.number (Number.int (pos v)))
    to_surreal (Value.u16 v) = ok (SurValue.number (Number.int (pos v)))
    to_surreal (Value.u32 v) = ok (SurValue.number (Number.int (pos v)))
    to_surreal (Value.u64 v) = ok (SurValue.number (encode_u64 v))
    to_surreal (Value.f32 v) = ok (SurValue.number (Number.float (C.f32_to_f64 v)))
    to_surreal (Value.f64 v) = ok (SurValue.number (Number.float v))
    to_surreal (Value.string v) = ok (SurValue.string v)
    to_surreal (Value.bytes v) = ok (SurValue.bytes v)
    to_surreal (Value.uuid v) = ok (SurValue.uuid v)
    to_surreal (Value.list items) = do out ← to_surreal_items items; ok (SurValue.array out)
    to_surreal (Value.record_value items) = do out ← to_surreal_items items; ok (SurValue.array out)
    to_surreal (Value.object obj) = do
      out ← to_surreal_fields obj Object.end
      ok (SurValue.object out)
    to_surreal (Value.other n) = encode_other (C.document_storage_text n) (Value.other n)

    pub to_surreal_items : Values → Result Array
    to_surreal_items Values.nil = ok Array.nil
    to_surreal_items (Values.cons item items) = do
      first ← to_surreal item
      rest ← to_surreal_items items
      ok (Array.cons first rest)

    -- the loop that fills `out`; a null field is left out
    pub to_surreal_fields : Fields → Object → Result Object
    to_surreal_fields Fields.end out = ok out
    to_surreal_fields (Fields.field name val rest) out = elim (is_null val) [
      | true ↦ to_surreal_fields rest out
      | false ↦ do
        encoded ← to_surreal val
        to_surreal_fields rest (C.object_insert name encoded out)
    ]

  unfoldable pub to_surreal_with_storage : Value → Option DbType → Result SurValue
  to_surreal_with_storage value none = to_surreal value
  to_surreal_with_storage value (some storage_ty) =
      if is_json storage_ty then json_text_to_surreal C value else to_surreal value

  unfoldable pub to_surreal_for_column : Value → Column → Result SurValue
  unfolding to_surreal_with_storage
  to_surreal_for_column value column = to_surreal_with_storage value (some column.storage_ty)

  unfoldable pub to_surreal_for_storage : Value → DbType → Result SurValue
  unfolding to_surreal_with_storage
  to_surreal_for_storage value storage_ty = to_surreal_with_storage value (some storage_ty)
