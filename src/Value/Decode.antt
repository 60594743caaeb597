-- ===== src/Value/Decode.antt =====
-- The read side of src/value.rs: `from_surreal`, directed by the column's type.
use toasty_driver_surreal.Prelude.{ℕ, String, ◌<>◌, Option, none, some, if◌then◌else◌}
use toasty_driver_surreal.Error.{Result, ok, err, unsupported_feature, ok_or, ◌>>=◌}
use toasty_driver_surreal.Schema.{Column}
use toasty_driver_surreal.Value.{
  StmtType, DbType, Value, Values, Fields, Number, SurValue, RecordIdKey, Array, Object, is_json,
}
use toasty_driver_surreal.Value.Codec.{Codec}
use toasty_driver_surreal.Value.Json.{surreal_json_to_text}
use toasty_driver_surreal.Value.Numeric.{number_to_stmt}

-- the type at which the elements of an array are decoded
abbrev elem_type : StmtType → StmtType
elem_type (StmtType.list inner) = inner
elem_type _ = StmtType.unknown

module _ (C : Codec) where
  -- `s.parse().map(Value::Uuid)`
  uuid_value : Option ℕ → String → Result Value
  uuid_value (some u) message = ok (Value.uuid u)
  uuid_value none message = err (unsupported_feature message)

  text_value : String → StmtType → Result Value
  unfolding uuid_value
  text_value s StmtType.string = ok (Value.string s)
  text_value s StmtType.unknown = ok (Value.string s)
  text_value s StmtType.uuid = uuid_value (C.parse_uuid s) "expected UUID text from SurrealDB"
  text_value s ty = ok_or (C.cast ty s) (
      unsupported_feature
        ("SurrealDB text value does not convert to column type " <> C.debug_type ty))

  text_key : String → StmtType → Result Value
  unfolding uuid_value
  text_key s StmtType.uuid = uuid_value (C.parse_uuid s) "expected UUID record id key"
  text_key s _ = ok (Value.string s)

  unfoldable mutual
    unfolding text_value text_key number_to_stmt

    pub from_surreal : SurValue → StmtType → Result Value
    from_surreal SurValue.none ty = ok Value.null
    from_surreal SurValue.null ty = ok Value.null
    from_surreal (SurValue.bool b) ty = ok (Value.bool b)
    from_surreal (SurValue.number n) ty = number_to_stmt C n ty
    from_surreal (SurValue.string s) ty = text_value s ty
    from_surreal (SurValue.uuid u) ty = ok (Value.uuid u)
    from_surreal (SurValue.bytes b) ty = ok (Value.bytes b)
    from_surreal (SurValue.record_id table key) ty = record_id_key_to_stmt key ty
    from_surreal (SurValue.array arr) ty = do
      out ← from_surreal_items arr (elem_type ty)
      ok (Value.list out)
    from_surreal (SurValue.object obj) ty = do
      entries ← from_surreal_entries obj
      ok (Value.object entries)
    from_surreal (SurValue.other n) ty = err (
        unsupported_feature
          ("SurrealDB driver cannot decode value: " <> C.debug_sur_value (SurValue.other n)))

    pub from_surreal_items : Array → StmtType → Result Values
    from_surreal_items Array.nil ty = ok Values.nil
    from_surreal_items (Array.cons item items) ty = do
      first ← from_surreal item ty
      rest ← from_surreal_items items ty
      ok (Values.cons first rest)

    pub from_surreal_entries : Object → Result Fields
    from_surreal_entries Object.end = ok Fields.end
    from_surreal_entries (Object.entry name val rest) = do
      first ← from_surreal val StmtType.unknown
      more ← from_surreal_entries rest
      ok (Fields.field name first more)

    pub record_id_key_to_stmt : RecordIdKey → StmtType → Result Value
    record_id_key_to_stmt (RecordIdKey.key_number i) ty = number_to_stmt C (Number.int i) ty
    record_id_key_to_stmt (RecordIdKey.key_string s) ty = text_key s ty
    record_id_key_to_stmt (RecordIdKey.key_uuid u) ty = ok (Value.uuid u)
    record_id_key_to_stmt (RecordIdKey.key_array arr) ty = do
      out ← from_surreal_items arr StmtType.unknown
      ok (Value.record_value out)
    record_id_key_to_stmt (RecordIdKey.key_other n) ty = err (
        unsupported_feature (
          "SurrealDB driver cannot decode record id key: "
          <> C.debug_record_id_key (RecordIdKey.key_other n)))

  unfoldable pub from_surreal_with_storage : SurValue → StmtType → Option DbType → Result Value
  from_surreal_with_storage value ty none = from_surreal value ty
  from_surreal_with_storage value ty (some storage_ty) =
      if is_json storage_ty then surreal_json_to_text C value else from_surreal value ty

  unfoldable pub from_surreal_for_column : SurValue → Column → Result Value
  unfolding from_surreal_with_storage
  from_surreal_for_column value column =
      from_surreal_with_storage value column.ty (some column.storage_ty)
