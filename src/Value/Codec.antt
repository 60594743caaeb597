-- ===== src/Value/Codec.antt =====
-- What src/value.rs uses of toasty-core, surrealdb, serde_json, rust_decimal and of the machine's
-- floats. The codec takes these operations as an argument; `IsLawful` states of them what the
-- round trips rely on.
use toasty_driver_surreal.Prelude.{ℕ, ℤ, String, Option}
use toasty_driver_surreal.Value.{
  StmtType, Value, Number, SurValue, RecordIdKey, Object, JsonValue, JsonMembers,
}

-- `serde_json::from_str`: a value, or an error with its line, its column and its text.
pub data Parsed : Type 0 where
  parsed : JsonValue → Parsed
  malformed : ℕ → ℕ → String → Parsed

-- `serde_json::to_string`: a text, or an error with its text.
pub data Printed : Type 0 where
  printed : String → Printed
  unprintable : String → Printed

pub record Codec : Type 0 where
  -- toasty-core
  pub document_storage_text : ℕ → Option String
  pub cast : StmtType → String → Option Value
  pub debug_value : Value → String
  pub debug_type : StmtType → String
  -- surrealdb
  pub object_insert : String → SurValue → Object → Object
  pub number_to_int : Number → Option ℤ
  pub number_to_f64 : Number → Option ℕ
  pub debug_sur_value : SurValue → String
  pub debug_record_id_key : RecordIdKey → String
  -- uuid and rust_decimal
  pub parse_uuid : String → Option ℕ
  pub decimal_from_u64 : ℕ → ℕ
  pub decimal_to_u64 : ℕ → Option ℕ
  pub decimal_to_string : ℕ → String
  -- floats
  pub f32_to_f64 : ℕ → ℕ
  pub f64_to_f32 : ℕ → ℕ
  pub f64_to_u64 : ℕ → ℕ
  -- serde_json
  pub as_i64 : ℕ → Option ℤ
  pub as_u64 : ℕ → Option ℕ
  pub as_f64 : ℕ → Option ℕ
  pub number_from_i64 : ℤ → ℕ
  pub number_from_f64 : ℕ → Option ℕ
  pub map_insert : String → JsonValue → JsonMembers → JsonMembers
  pub parse_json : String → Parsed
  pub print_json : JsonValue → Printed
