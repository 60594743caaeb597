-- ===== src/Value.antt =====
-- The values that cross the driver: Toasty's `stmt::Value` and `stmt::Type`, SurrealDB's
-- `types::Value`, `serde_json::Value`, and the storage types `db::Type`. They are the enums that
-- src/value.rs matches on; the variants that its catch-all arms take are one constructor `other`,
-- told apart by a number. A float is the number of its bits, as are a UUID and a `Decimal`; a
-- `serde_json::Number` is a token that only the operations of `Codec` read.
pub mod Codec
pub mod Numeric
pub mod Json
pub mod Encode
pub mod Decode
pub mod RoundTrip
pub mod Untyped
pub mod Documents
use toasty_driver_surreal.Prelude.{ℕ, ℤ, String, Bool, true, false, List, [], ◌∷◌}

pub data StmtType : Type 0 where
  bool i8 i16 i32 i64 u8 u16 u32 u64 f32 f64 string uuid unknown : StmtType
  list : StmtType → StmtType
  other : ℕ → StmtType

pub data DbType : Type 0 where
  json : DbType
  other : ℕ → DbType

mutual
  pub data Value : Type 0 where
    null : Value
    bool : Bool → Value
    i8 i16 i32 i64 : ℤ → Value
    u8 u16 u32 u64 f32 f64 : ℕ → Value
    string : String → Value
    bytes : List ℕ → Value
    uuid : ℕ → Value
    list record_value : Values → Value
    object : Fields → Value
    other : ℕ → Value

  pub data Values : Type 0 where
    nil : Values
    cons : Value → Values → Values

  pub data Fields : Type 0 where
    end : Fields
    field : String → Value → Fields → Fields

pub data Number : Type 0 where
  int : ℤ → Number
  float : ℕ → Number
  decimal : ℕ → Number

mutual
  pub data SurValue : Type 0 where
    none null : SurValue
    bool : Bool → SurValue
    number : Number → SurValue
    string : String → SurValue
    bytes : List ℕ → SurValue
    uuid : ℕ → SurValue
    array : Array → SurValue
    object : Object → SurValue
    record_id : String → RecordIdKey → SurValue
    other : ℕ → SurValue

  -- the key of a record id; the record id itself is its table's name with a key
  pub data RecordIdKey : Type 0 where
    key_number : ℤ → RecordIdKey
    key_string : String → RecordIdKey
    key_uuid : ℕ → RecordIdKey
    key_array : Array → RecordIdKey
    key_other : ℕ → RecordIdKey

  pub data Array : Type 0 where
    nil : Array
    cons : SurValue → Array → Array

  -- the entries in the order in which an iteration gives them
  pub data Object : Type 0 where
    end : Object
    entry : String → SurValue → Object → Object

mutual
  pub data JsonValue : Type 0 where
    null : JsonValue
    bool : Bool → JsonValue
    number : ℕ → JsonValue
    string : String → JsonValue
    array : JsonValues → JsonValue
    object : JsonMembers → JsonValue

  pub data JsonValues : Type 0 where
    nil : JsonValues
    cons : JsonValue → JsonValues → JsonValues

  pub data JsonMembers : Type 0 where
    end : JsonMembers
    member : String → JsonValue → JsonMembers → JsonMembers

-- `Value::is_null`
abbrev pub is_null : Value → Bool
is_null Value.null = true
is_null _ = false

-- `matches!(storage_ty, Some(db::Type::Json))` on the storage type itself
abbrev pub is_json : DbType → Bool
is_json DbType.json = true
is_json (DbType.other n) = false

-- `Array::into_inner` and `Array::from`
abbrev pub elements : Array → List SurValue
elements Array.nil = []
elements (Array.cons x xs) = x ∷ elements xs

abbrev pub to_values : List Value → Values
to_values [] = Values.nil
to_values (v ∷ vs) = Values.cons v (to_values vs)
