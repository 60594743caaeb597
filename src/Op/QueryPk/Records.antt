-- ===== src/Op/QueryPk/Records.antt =====
-- The records that a select streams.
use toasty_driver_surreal.Prelude.{
  ℕ, suc, String, List, [], ◌∷◌, Option, ◌≡◌, ap, sym, ◌∙◌, length, All, subst,
}
use toasty_driver_surreal.Error.{Result, ok, err, >>=-eq-ok, ok-injective}
use toasty_driver_surreal.Schema.{Column}
use toasty_driver_surreal.Value.{Value, Values, SurValue, Object}
use toasty_driver_surreal.Value.Codec.{Codec}
use toasty_driver_surreal.Value.Decode.{from_surreal_for_column}
use toasty_driver_surreal.Expr.{Binds}
use toasty_driver_surreal.Conn.Sdk.{Sdk}
use toasty_driver_surreal.Conn.Session.{Connection, attempt, ask, run_query, take_rows}
use toasty_driver_surreal.Op.{ExecResponse, field_of, row_fields, row_to_record, rows_to_records}
use toasty_driver_surreal.Op.QueryPk.{
  KeysetSelect, keyset_cursor, keyset_statement, keyset_response, run_keyset_select,
}

abbrev count_values : Values → ℕ
count_values Values.nil = 0
count_values (Values.cons v vs) = suc (count_values vs)

-- A record of so many values.
abbrev pub IsRecordOf : ℕ → Value → Type 0
IsRecordOf n v = (fields : Values) × (v ≡ Value.record_value fields) × (count_values fields ≡ n)

module _ (C : Codec) (lookup : Object → String → Option SurValue) where
  count-row_fields :
      (row : SurValue) (columns : List Column) (fields : Values)
      → row_fields C lookup row columns ≡ ok fields
      → count_values fields ≡ length columns
  unfolding row_fields
  count-row_fields row [] fields h = ap count_values (sym (ok-injective h))
  count-row_fields row (column ∷ columns) fields h =
      let (v, p, h₁) =
        >>=-eq-ok (from_surreal_for_column C (field_of C lookup row column.name) column) _ h in
      let (rest, q, h₂) = >>=-eq-ok (row_fields C lookup row columns) _ h₁ in
      ap count_values (sym (ok-injective h₂)) ∙ ap suc (count-row_fields row columns rest q)

  row_to_record-IsRecordOf :
      (row : SurValue) (columns : List Column) (record_of : Value)
      → row_to_record C lookup row columns ≡ ok record_of
      → IsRecordOf (length columns) record_of
  unfolding row_to_record
  row_to_record-IsRecordOf row columns record_of h =
      let (fields, p, q) = >>=-eq-ok (row_fields C lookup row columns) _ h in
      (fields, sym (ok-injective q), count-row_fields row columns fields p)

  rows_to_records-IsRecordOf :
      (rows : List SurValue) (columns : List Column) (records : List Value)
      → rows_to_records C lookup rows columns ≡ ok records
      → All (IsRecordOf (length columns)) records
  unfolding rows_to_records
  rows_to_records-IsRecordOf [] columns records h =
      subst (All (IsRecordOf (length columns))) (ok-injective h) tt
  rows_to_records-IsRecordOf (row ∷ rows) columns records h =
      let (first, p, h₁) = >>=-eq-ok (row_to_record C lookup row columns) _ h in
      let (rest, q, h₂) = >>=-eq-ok (rows_to_records C lookup rows columns) _ h₁ in
      subst (All (IsRecordOf (length columns))) (ok-injective h₂) (
        row_to_record-IsRecordOf row columns first p,
        rows_to_records-IsRecordOf rows columns rest q,
      )

  module _ {S T R : Type 0} (sdk : Sdk S T R) where
    streamed : ExecResponse → List Value
    streamed (ExecResponse.count n) = []
    streamed (ExecResponse.page values next) = values

    response-IsRecordOf :
        (input : KeysetSelect) (response : Result R) (values : List Value) (next : Option Value)
        → keyset_response C lookup sdk input response ≡ ok (ExecResponse.page values next)
        → All (IsRecordOf (length input.select)) values
    unfolding keyset_response streamed
    response-IsRecordOf input response values next h =
        let (r, p, h₁) = >>=-eq-ok response _ h in
        let (rows, q, h₂) = >>=-eq-ok (take_rows sdk r 0) _ h₁ in
        let (cursor, c, h₃) =
          >>=-eq-ok (keyset_cursor C lookup rows input.limit input.sort_column) _ h₂ in
        let (records, d, h₄) = >>=-eq-ok (rows_to_records C lookup rows input.select) _ h₃ in
        subst (All (IsRecordOf (length input.select))) (ap streamed (ok-injective h₄))
          (rows_to_records-IsRecordOf rows input.select records d)

    -- Whatever the server answers, each value that a select streams is a record with as many fields
    -- as columns are selected.
    pub run_keyset_select-IsRecordOf :
        (conn : Connection S T) (input : KeysetSelect) (values : List Value) (next : Option Value)
        → (run_keyset_select C lookup sdk conn input).0 ≡ ok (ExecResponse.page values next)
        → All (IsRecordOf (length input.select)) values
    unfolding run_keyset_select ask
    run_keyset_select-IsRecordOf conn input values next h = asked (keyset_statement C input) h
      where
        asked :
            (made : Result (String × Binds))
            → (attempt conn made (λ m. ask sdk conn m (keyset_response C lookup sdk input))).0
              ≡ ok (ExecResponse.page values next)
            → All (IsRecordOf (length input.select)) values
        asked (err e) g = cc
        asked (ok (sql, binds)) g =
            response-IsRecordOf input (run_query sdk conn sql binds).0 values next g
