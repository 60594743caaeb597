-- ===== src/Op/QueryPk/Found.antt =====
-- What one page of a keyset select gives: the rows that the server answers, decoded, and the cursor.
use mathlib.Core.List.{map-append}
use toasty_driver_surreal.Prelude.{
  ℕ, ◌<◌, String, ◌<>◌, Bool, true, false, List, [], ◌∷◌, ◌++◌, Option, none, some, ◌≡◌, refl, ap,
  ◌∙◌, length, length-map, last-append, ltb, last, All, map, arith,
}
use toasty_driver_surreal.Text.{decimal}
use toasty_driver_surreal.Error.{ok}
use toasty_driver_surreal.Schema.{Column}
use toasty_driver_surreal.Value.{Value, SurValue, Array, Object, elements}
use toasty_driver_surreal.Value.Codec.{Codec}
use toasty_driver_surreal.Value.Encode.{to_surreal}
use toasty_driver_surreal.Value.Decode.{from_surreal}
use toasty_driver_surreal.Conn.Sdk.{done, Sdk}
use toasty_driver_surreal.Conn.Session.{
  Connection, attempt, run_query, response, checked, take_rows, ask,
}
use toasty_driver_surreal.Op.{ExecResponse, row_to_record, rows_to_records}
use toasty_driver_surreal.Op.QueryPk.{
  Direction, Pagination, KeysetSelect, run_keyset_select, keyset_cursor, cursor_in, decoded_cursor,
  keyset_response, effective_order,
}
use toasty_driver_surreal.Op.QueryPk.Follow.{
  page_after, first_text, next_text, first_statement, next_statement,
}

abbrev pub rows_array : List Object → Array
rows_array [] = Array.nil
rows_array (row ∷ rows) = Array.cons (SurValue.object row) (rows_array rows)

pub elements-rows_array :
    (rows : List Object) → elements (rows_array rows) ≡ map SurValue.object rows
elements-rows_array [] = refl
elements-rows_array (row ∷ rows) = ap (λ l. SurValue.object row ∷ l) (elements-rows_array rows)

-- The rows that the predicate selects, each with its sort key, the key's value as a cursor, and the
-- record that it is decoded to; the order of the keys in the direction of the select; and responses
-- that hold rows.
pub record Matching (R : Type 0) : Type 0 where
  pub rows : List Object
  pub key : Object → SurValue
  pub cursor : Object → Value
  pub decoded : Object → Value
  pub less : SurValue → SurValue → Bool
  pub answer : List Object → R

module _ (C : Codec) (lookup : Object → String → Option SurValue) {S T R : Type 0} (sdk : Sdk S T R)
    (input : KeysetSelect) (n : ℕ) (predicate : String) (column : Column) (dir : Direction)
    (M : Matching R) where
  -- The row shows its key, the key is read and stored as its cursor, and the row is decoded.
  abbrev pub Readable : Object → Type 0
  Readable row =
      (lookup row "__toasty_sort_key" ≡ some (M.key row))
      × (from_surreal C (M.key row) column.ty ≡ ok (M.cursor row))
      × (to_surreal C (M.cursor row) ≡ ok (M.key row))
      × (row_to_record C lookup (SurValue.object row) input.select ≡ ok (M.decoded row))

  -- A response holds its rows.
  pub record Answers : Type 0 where
    pub passed : (rows : List Object) → sdk.check (M.answer rows) ≡ done (M.answer rows)
    pub taken :
        (rows : List Object) → sdk.take (M.answer rows) 0 ≡ done (SurValue.array (rows_array rows))

  decoded_rows :
      (rows : List Object)
      → All Readable rows
      → rows_to_records C lookup (map SurValue.object rows) input.select ≡ ok (map M.decoded rows)
  unfolding rows_to_records
  decoded_rows [] h = refl
  decoded_rows (row ∷ rows) ((k, c, s, d), hs) = rw (d, decoded_rows rows hs) refl

  module _ (answers : Answers) where
    taken_rows :
        (rows : List Object) → take_rows sdk (M.answer rows) 0 ≡ ok (map SurValue.object rows)
    unfolding take_rows
    taken_rows rows = rw (answers.taken rows) (ap ok (elements-rows_array rows))

    objects_length : (rows : List Object) → length (map SurValue.object rows) ≡ length rows
    objects_length rows = length-map SurValue.object rows

    pub short_cursor :
        (after : Option Value) (rows : List Object)
        → length rows < n
        → keyset_cursor C lookup
            (map SurValue.object rows)
            (some (Pagination.cursor n after))
            input.sort_column
          ≡ ok none
    unfolding keyset_cursor
    short_cursor after rows s = ground (arith, objects_length rows)

    pub full_cursor :
        (after : Option Value) (xs : List Object) (x : Object)
        → input.sort_column ≡ some column
        → Readable x
        → ltb (length (xs ++ x ∷ [])) n ≡ false
        → keyset_cursor C lookup
            (map SurValue.object (xs ++ x ∷ []))
            (some (Pagination.cursor n after))
            input.sort_column
          ≡ ok (some (M.cursor x))
    unfolding keyset_cursor cursor_in decoded_cursor
    full_cursor after xs x sorted (k, c, s, d) full =
        let l : last (map SurValue.object (xs ++ x ∷ [])) ≡ some (SurValue.object x) =
          ap last (map-append SurValue.object xs (x ∷ []))
          ∙ last-append (map SurValue.object xs) (SurValue.object x) in
        let t : ltb (length (map SurValue.object (xs ++ x ∷ []))) n ≡ false =
          ground (arith, objects_length (xs ++ x ∷ [])) in
        rw (t, l, sorted, k, c) refl

    pub page_response :
        (after : Option Value) (rows : List Object) (next : Option Value)
        → All Readable rows
        → keyset_cursor C lookup
            (map SurValue.object rows)
            (some (Pagination.cursor n after))
            input.sort_column
          ≡ ok next
        → keyset_response C lookup sdk (page_after input n after) (ok (M.answer rows))
          ≡ ok (ExecResponse.page (map M.decoded rows) next)
    unfolding keyset_response
    page_response after rows next h e = rw (taken_rows rows, e, decoded_rows rows h) refl

    module _ (conn : Connection S T) (idle : conn.transaction ≡ none)
        (filtered : input.predicate ≡ some predicate) (sorted : input.sort_column ≡ some column)
        (directed : effective_order input.order true ≡ some dir) where
      -- the select behind a cursor finds the rows
      abbrev pub Finds : Option Value → List Object → Type 0
      Finds after rows =
          run_keyset_select C lookup sdk conn (page_after input n after)
          ≡ (keyset_response C lookup sdk (page_after input n after) (ok (M.answer rows)), conn)

      pub first-Finds :
          (rows : List Object)
          → sdk.query (first_text input predicate n dir) input.binds conn.server
            ≡ (done (M.answer rows), conn.server)
          → Finds none rows
      unfolding run_keyset_select ask run_query response checked
      first-Finds rows answered =
          ap
            (λ made. attempt conn made (λ asked.
              ask sdk conn asked (keyset_response C lookup sdk (page_after input n none))))
            (first_statement C input n predicate column dir filtered sorted directed)
          ∙ rw (idle, answered, answers.passed rows) refl

      pub next-Finds :
          (v : Value) (c : SurValue) (rows : List Object)
          → to_surreal C v ≡ ok c
          → sdk.query
              (next_text input predicate n dir)
              (input.binds ++ ("p" <> decimal (length input.binds), c) ∷ [])
              conn.server
            ≡ (done (M.answer rows), conn.server)
          → Finds (some v) rows
      unfolding run_keyset_select ask run_query response checked
      next-Finds v c rows stored answered =
          rw
            (
              next_statement C input n predicate column dir filtered sorted directed v c stored,
              idle,
              answered,
              answers.passed rows,
            )
            refl
