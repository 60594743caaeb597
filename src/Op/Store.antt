-- ===== src/Op/Store.antt =====
-- A server that keeps records, as the operations of src/op use it: `CREATE` stores a content under
-- a record id, and `SELECT .. FROM` a record id shows the columns of the record that is stored.
pub mod Keys
pub mod Fields
pub mod Creates
pub mod Reads
pub mod ReadBack
use toasty_driver_surreal.Prelude.{
  ℕ, zero, suc, String, ◌<>◌, Bool, List, [], ◌∷◌, Option, none, ◌≡◌, All, str_eq, false, leb,
  length, map, if◌then◌else◌,
}
use toasty_driver_surreal.Text.{join, decimal}
use toasty_driver_surreal.Schema.{Column, Table}
use toasty_driver_surreal.Value.{SurValue, Number, RecordIdKey, Array, Object}
use toasty_driver_surreal.Value.Codec.{Codec}
use toasty_driver_surreal.RecordId.{RecordId, to_value}
use toasty_driver_surreal.Expr.{escape_ident, is_primary_key, position, or_first}
use toasty_driver_surreal.Conn.Sdk.{done, Sdk}
use toasty_driver_surreal.Conn.Session.{response}
use toasty_driver_surreal.Op.{field_of}
use toasty_driver_surreal.Op.Insert.{create_text}

-- the projection of columns in SurrealQL: a column of the primary key is the key of the record id or
-- an element of it, under its name
abbrev key_text : Table → Column → String
key_text table column =
    if leb (length table.primary_key) 1
    then "record::id(id)"
    else "record::id(id)[" <> decimal (or_first (position table.primary_key column.id)) <> "]"

abbrev pub item : Table → Column → String
item table column =
    if is_primary_key table column
    then key_text table column <> " AS " <> escape_ident column.name
    else escape_ident column.name

abbrev pub items : Table → List Column → String
items table [] = "*"
items table (column ∷ columns) = join ", " (map (item table) (column ∷ columns))

-- `record::id(id)` of a record, and an element of it
abbrev pub key_value : RecordIdKey → SurValue
key_value (RecordIdKey.key_number z) = SurValue.number (Number.int z)
key_value (RecordIdKey.key_string s) = SurValue.string s
key_value (RecordIdKey.key_uuid u) = SurValue.uuid u
key_value (RecordIdKey.key_array a) = SurValue.array a
key_value (RecordIdKey.key_other k) = SurValue.none

abbrev pub element : Array → ℕ → SurValue
element Array.nil i = SurValue.none
element (Array.cons x a) zero = x
element (Array.cons x a) (suc i) = element a i

abbrev pub key_element : RecordIdKey → ℕ → SurValue
key_element (RecordIdKey.key_array a) i = element a i
key_element _ i = SurValue.none

abbrev pub key_field : Table → Column → RecordIdKey → SurValue
key_field table column key =
    if leb (length table.primary_key) 1
    then key_value key
    else key_element key (or_first (position table.primary_key column.id))

module _ (C : Codec) (lookup : Object → String → Option SurValue) where
  -- The row shows the column of the record.
  abbrev pub ShowsColumn : Table → RecordId → Object → Object → Column → Type 0
  ShowsColumn table rid content row column = field_of C lookup (SurValue.object row) column.name ≡ (
      if is_primary_key table column
      then key_field table column rid.key
      else field_of C lookup (SurValue.object content) column.name)

  module _ {S T R : Type 0} (sdk : Sdk S T R) where
    -- The answer of a server to a statement is a response with one row.
    abbrev pub AnswersRow : R → Object → Type 0
    AnswersRow r row =
        (sdk.check r ≡ done r)
        × (sdk.take r 0 ≡ done (SurValue.array (Array.cons (SurValue.object row) Array.nil)))

    -- A server on which, in a transaction or outside, a `CREATE` that succeeds stores the content,
    -- and the columns can be selected of a record that is stored.
    pub record IsStore (t : Option T) (table : Table) (columns : List Column)
        (Stored : S → RecordId → Object → Type 0) : Type 0 where
      pub created :
          (w : Bool) (s after : S) (r passed : R) (rid : RecordId) (content : Object)
          → response sdk t
              (create_text w)
              (("rid", to_value rid) ∷ ("data", SurValue.object content) ∷ [])
              s
            ≡ (done r, after)
          → sdk.check r ≡ done passed
          → Stored after rid content
      pub selected :
          (s : S) (rid : RecordId) (content : Object)
          → Stored s rid content
          → (r : R) × ((after : S) × ((row : Object) × (response sdk t
                    ("SELECT " <> items table columns <> " FROM $k0")
                    (("k0", to_value rid) ∷ [])
                    s
                  ≡ (done r, after))
                × AnswersRow r row
                × All (ShowsColumn table rid content row) columns))
