-- ===== src/Op/Rows.antt =====
-- A row whose fields are the stored forms of values is decoded to these values.
use toasty_driver_surreal.Prelude.{String, List, [], ◌∷◌, Option, ◌≡◌, refl, ap, sym, ◌∙◌, false}
use toasty_driver_surreal.Error.{ok, ◌>>=◌}
use toasty_driver_surreal.Schema.{Column}
use toasty_driver_surreal.Value.{Value, Values, SurValue, Object, is_json}
use toasty_driver_surreal.Value.Codec.{Codec}
use toasty_driver_surreal.Value.Encode.{to_surreal_for_column}
use toasty_driver_surreal.Value.Decode.{from_surreal_for_column}
use toasty_driver_surreal.Value.RoundTrip.{IsLawful, HasType, column_round_trip}
use toasty_driver_surreal.Op.{field_of, row_fields, row_to_record}

module _ (C : Codec) (lookup : Object → String → Option SurValue) where
  -- The column is no native JSON column, and the row holds in it the stored form of a value of its
  -- type.
  abbrev pub Holds : SurValue → Column → Value → Type 0
  Holds row column value =
      (is_json column.storage_ty ≡ false)
      × HasType C value column.ty
      × (to_surreal_for_column C value column ≡ ok (field_of C lookup row column.name))

  abbrev pub HoldsAll : SurValue → List Column → Values → Type 0
  HoldsAll row [] Values.nil = Unit
  HoldsAll row (column ∷ columns) (Values.cons value values) =
      Holds row column value × HoldsAll row columns values
  HoldsAll row _ _ = ⊥

  field_read :
      (L : IsLawful C) (row : SurValue) (column : Column) (value : Value)
      → Holds row column value
      → from_surreal_for_column C (field_of C lookup row column.name) column ≡ ok value
  field_read L row column value (plain, typed, stored) =
      sym (ap (λ r. r >>= λ s. from_surreal_for_column C s column) stored)
      ∙ column_round_trip C L value column plain typed

  fields_read :
      (L : IsLawful C) (row : SurValue) (columns : List Column) (values : Values)
      → HoldsAll row columns values
      → row_fields C lookup row columns ≡ ok values
  unfolding row_fields
  fields_read L row [] Values.nil h = refl
  fields_read L row (column ∷ columns) (Values.cons value values) h =
      rw (field_read L row column value h.0, fields_read L row columns values h.1) refl
  fields_read L row _ _ h = elim h [ ]

  -- For every lawful codec, a row whose columns, none of them native JSON, hold values of their
  -- types, in the stored form of each, is decoded to the record of these values in the order of the
  -- selected columns.
  pub row_to_record-HoldsAll :
      (L : IsLawful C) (row : SurValue) (columns : List Column) (values : Values)
      → HoldsAll row columns values
      → row_to_record C lookup row columns ≡ ok (Value.record_value values)
  unfolding row_to_record
  row_to_record-HoldsAll L row columns values h = rw (fields_read L row columns values h) refl
