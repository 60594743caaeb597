-- ===== src/Op/Store/ReadBack.antt =====
-- An insert, and then a read by its key.
use mathlib.Core.List.{Permᴰ}
use toasty_driver_surreal.Prelude.{
  String, Bool, false, List, [], ◌∷◌, Option, ◌≡◌, refl, sym, In, All, length,
}
use toasty_driver_surreal.Error.{ok}
use toasty_driver_surreal.Value.{Value, SurValue, Object, is_json}
use toasty_driver_surreal.Value.Codec.{Codec}
use toasty_driver_surreal.Value.Decode.{from_surreal_for_column}
use toasty_driver_surreal.Value.RoundTrip.{IsLawful, HasType}
use toasty_driver_surreal.RecordId.{RecordId, record_id}
use toasty_driver_surreal.Conn.Sdk.{Sdk}
use toasty_driver_surreal.Conn.Session.{Connection}
use toasty_driver_surreal.Op.{ExecResponse, value_stream, field_of}
use toasty_driver_surreal.Op.Write.{Source, key_of}
use toasty_driver_surreal.Op.Write.Keys.{numbered, Cell, cell_columns, cell_row, key_pairs}
use toasty_driver_surreal.Op.Insert.{Insert, build_row, exec_insert}
use toasty_driver_surreal.Op.Insert.Content.{IsMap}
use toasty_driver_surreal.Op.Insert.Stored.{build_row-record_id}
use toasty_driver_surreal.Op.GetByKey.{exec_get_by_key}
use toasty_driver_surreal.Op.Store.{ShowsColumn, IsStore}
use toasty_driver_surreal.Op.Store.Fields.{IsNamed, column_decoded}
use toasty_driver_surreal.Op.Store.Creates.{exec_insert-CreatesRow}
use toasty_driver_surreal.Op.Store.Reads.{cell_values, exec_get_by_key-Stored}

module _ (C : Codec) (lookup : Object → String → Option SurValue) (L : IsLawful C)
    (laws : IsMap C lookup) {S T R : Type 0} (sdk : Sdk S T R)
    (Stored : S → RecordId → Object → Type 0) where
  -- the cell is one of the row's, in a plain column and of its type
  abbrev pub Selected : List Cell → Cell → Type 0
  Selected cells cell =
      In cell cells × (is_json cell.0.storage_ty ≡ false) × HasType C cell.1 cell.0.ty

  columns_decoded :
      (insert : Insert) (cells : List Cell) (keys : List Value) (rid : SurValue) (content : Object)
      (id : RecordId)
      → insert.columns ≡ cell_columns cells
      → IsNamed (cell_columns cells)
      → Permᴰ (numbered 0 keys) (key_pairs insert.table cells)
      → length keys ≡ length insert.table.primary_key
      → build_row C insert (cell_row cells) ≡ ok (rid, content)
      → record_id C insert.table (key_of (numbered 0 keys)) ≡ ok id
      → (chosen : List Cell) → All (Selected cells) chosen
      → (row : Object)
      → All (λ (cell : Cell). ShowsColumn C lookup insert.table id content row cell.0) chosen
      → All
          (λ (cell : Cell).
            from_surreal_for_column C (field_of C lookup (SurValue.object row) cell.0.name) cell.0
            ≡ ok cell.1)
          chosen
  columns_decoded insert cells keys rid content id e n p l built made [] h row shows = tt
  columns_decoded insert cells keys rid content id e n p l built made (cell ∷ chosen)
        ((i, plain, typed), hs) row (shows, rest) =
      (
        column_decoded C lookup L laws insert cells keys e n p l rid content id row built made
            cell.0 cell.1 shows i plain typed,
        columns_decoded insert cells keys rid content id e n p l built made chosen hs row rest,
      )

  -- What is inserted is read back by its key: on every server that stores what a `CREATE` that
  -- succeeds gives it and shows the columns of a stored record, in a transaction or outside, when an
  -- insert of one row succeeds, with a `RETURNING` or not, the read of the key of the row answers
  -- with one record, the values of the selected columns in their order, key columns included,
  -- whatever the arity of the key and the order in which the insert lists its columns. The row gives
  -- a literal to each column of the key and has columns of different names, and the selected ones
  -- are columns of the row that are not native JSON, with values of their types.
  pub exec_get_by_key-exec_insert :
      (conn : Connection S T) (insert : Insert) (ret : Bool) (cells : List Cell) (keys : List Value)
      (chosen : List Cell) (reply : ExecResponse)
      → IsStore C lookup sdk conn.transaction insert.table (cell_columns chosen) Stored
      → insert.columns ≡ cell_columns cells
      → insert.source ≡ Source.values (cell_row cells ∷ [])
      → IsNamed (cell_columns cells)
      → Permᴰ (numbered 0 keys) (key_pairs insert.table cells)
      → length keys ≡ length insert.table.primary_key
      → All (Selected cells) chosen
      → (exec_insert C lookup sdk conn insert ret).0 ≡ ok reply
      → (exec_get_by_key C lookup sdk (exec_insert C lookup sdk conn insert ret).1 (record {
        table = insert.table;
        select = cell_columns chosen;
        keys = key_of (numbered 0 keys) ∷ [];
      })).0
        ≡ ok (value_stream (Value.record_value (cell_values chosen) ∷ []))
  exec_get_by_key-exec_insert conn insert ret cells keys chosen reply store e s n p l h succeeded =
      let (want, ((rid, content), built, (r, (passed, (server, answered, check, after))))) =
        exec_insert-CreatesRow C lookup sdk conn insert ret (cell_row cells) reply s succeeded in
      let (id, made, named) = build_row-record_id C insert cells keys rid content e p built in
      let stored : Stored server id content =
        store.created want conn.server server r passed id content (rw (sym named) answered) check in
      rw after (
        exec_get_by_key-Stored C lookup sdk insert.table chosen Stored conn.transaction store
          (record conn { server = server }) (key_of (numbered 0 keys)) id content refl made stored
          (columns_decoded insert cells keys rid content id e n p l built made chosen h))
