-- ===== src/RecordId.antt =====
-- src/record_id.rs: from Toasty primary keys to SurrealDB record ids.
pub mod Keys
use toasty_driver_surreal.Prelude.{ℕ, pos, String, ◌<>◌, ltb, leb, if◌then◌else◌, half64, length}
use toasty_driver_surreal.Error.{Result, ok, err, unsupported_feature, invalid_statement, ◌>>=◌}
use toasty_driver_surreal.Schema.{Table}
use toasty_driver_surreal.Value.{Value, Values, SurValue, RecordIdKey, Array}
use toasty_driver_surreal.Value.Codec.{Codec}
use toasty_driver_surreal.Value.Encode.{to_surreal}

pub record RecordId : Type 0 where
  pub table : String
  pub key : RecordIdKey

-- `SurValue::RecordId(rid)`
abbrev pub to_value : RecordId → SurValue
to_value rid = SurValue.record_id rid.table rid.key

module _ (C : Codec) where
  unfoldable pub scalar_to_key : Value → Result RecordIdKey
  scalar_to_key (Value.i8 v) = ok (RecordIdKey.key_number v)
  scalar_to_key (Value.i16 v) = ok (RecordIdKey.key_number v)
  scalar_to_key (Value.i32 v) = ok (RecordIdKey.key_number v)
  scalar_to_key (Value.i64 v) = ok (RecordIdKey.key_number v)
  scalar_to_key (Value.u8 v) = ok (RecordIdKey.key_number (pos v))
  scalar_to_key (Value.u16 v) = ok (RecordIdKey.key_number (pos v))
  scalar_to_key (Value.u32 v) = ok (RecordIdKey.key_number (pos v))
  scalar_to_key (Value.u64 v) =
      if ltb v half64
      then ok (RecordIdKey.key_number (pos v))
      else err (
          unsupported_feature
            "SurrealDB record id integers are i64; u64 keys above i64::MAX are not supported")
  scalar_to_key (Value.string v) = ok (RecordIdKey.key_string v)
  scalar_to_key (Value.uuid v) = ok (RecordIdKey.key_uuid v)
  scalar_to_key v = err (
      unsupported_feature
        ("SurrealDB record id key cannot be built from value: " <> C.debug_value v))

  unfoldable pub scalar_key_value : Value → Result SurValue
  scalar_key_value value = to_surreal C value

  unfoldable pub key_elements : Values → Result Array
  unfolding scalar_key_value
  key_elements Values.nil = ok Array.nil
  key_elements (Values.cons field fields) = do
    first ← scalar_key_value field
    rest ← key_elements fields
    ok (Array.cons first rest)

  -- a record's fields, with one primary-key column and with several
  unfoldable pub single_key : Values → Result RecordIdKey
  unfolding scalar_to_key
  single_key Values.nil = err (invalid_statement "empty record key for single-column table")
  single_key (Values.cons field fields) = scalar_to_key field

  unfoldable pub composite_key : Values → Result RecordIdKey
  unfolding key_elements
  composite_key fields = do elems ← key_elements fields; ok (RecordIdKey.key_array elems)

  unfoldable pub record_id_key : Value → ℕ → Result RecordIdKey
  unfolding single_key composite_key
  record_id_key (Value.record_value fields) arity =
      if leb arity 1 then single_key fields else composite_key fields
  record_id_key key arity = scalar_to_key key

  unfoldable pub record_id : Table → Value → Result RecordId
  unfolding record_id_key
  record_id table key = do
    k ← record_id_key key (length table.primary_key)
    ok (record { table = table.name; key = k })
