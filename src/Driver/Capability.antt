-- ===== src/Driver/Capability.antt =====
-- `surrealdb_capability` of src/capability.rs, from the DynamoDB profile of toasty-core, which is an
-- argument.
use toasty_driver_surreal.Prelude.{String, Bool, true, false, Option, none}

-- `Capability` of toasty-core: the fields that the driver sets and `native_jsonb`, with the dialects
-- and the placeholders of SQL and the fields that it takes over.
pub record Capability (Dialect Placeholder Fields : Type 0) : Type 0 where
  pub driver_name : String
  pub sql : Option Dialect
  pub sql_placeholder : Option Placeholder
  pub scan : Bool
  pub scan_supports_sort : Bool
  pub index_or_predicate : Bool
  pub upsert_primary_key : Bool
  pub primary_key_ne_predicate : Bool
  pub native_json : Bool
  pub native_jsonb : Bool
  pub other_fields : Fields

unfoldable pub surrealdb_capability : {D P F : Type 0} → Capability D P F → Capability D P F
surrealdb_capability dynamodb = record dynamodb {
  driver_name = "SurrealDB";
  sql = none;
  sql_placeholder = none;
  scan = true;
  scan_supports_sort = false;
  index_or_predicate = true;
  upsert_primary_key = true;
  primary_key_ne_predicate = true;
  native_json = true;
}
