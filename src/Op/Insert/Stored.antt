-- ===== src/Op/Insert/Stored.antt =====
-- The record that an insert names.
use mathlib.Core.List.{Permᴰ}
use toasty_driver_surreal.Prelude.{List, [], ◌≡◌, ap, sym, ◌∙◌, subst}
use toasty_driver_surreal.Error.{ok, >>=-eq-ok, ok-injective}
use toasty_driver_surreal.Value.{Value, SurValue, Object}
use toasty_driver_surreal.Value.Codec.{Codec}
use toasty_driver_surreal.RecordId.{RecordId, record_id, to_value}
use toasty_driver_surreal.Op.Write.{Split, key_of, pk_to_value, split_row}
use toasty_driver_surreal.Op.Write.Keys.{
  numbered, Cell, cell_columns, cell_row, key_pairs, split_row-key_pairs, pk_to_value-perm,
}
use toasty_driver_surreal.Op.Insert.{Insert, build_row}

module _ (C : Codec) where
  -- what a row that is built was split into
  pub built_from :
      (insert : Insert) (cells : List Cell) (rid : SurValue) (content : Object)
      → insert.columns ≡ cell_columns cells
      → build_row C insert (cell_row cells) ≡ ok (rid, content)
      → (split : Split) × (split_row C "insert" insert.table
            (cell_row cells)
            0
            (cell_columns cells)
            ([], Object.end)
          ≡ ok split)
        × (split.1 ≡ content)
        × ((id : RecordId) × (record_id C insert.table (pk_to_value split.0) ≡ ok id)
            × (rid ≡ to_value id))
  unfolding build_row
  built_from insert cells rid content e h =
      let (split, p, h₁) =
        >>=-eq-ok
          (split_row C "insert" insert.table (cell_row cells) 0 insert.columns ([], Object.end)) _
          h in
      let (id, q, h₂) = >>=-eq-ok (record_id C insert.table (pk_to_value split.0)) _ h₁ in
      let done = ok-injective h₂ in
      (
        split,
        subst
            (λ columns.
              split_row C "insert" insert.table (cell_row cells) 0 columns ([], Object.end)
              ≡ ok split)
            e p,
        ap (λ (x : SurValue × Object). x.1) done,
        (id, q, sym (ap (λ (x : SurValue × Object). x.0) done)),
      )

  -- Whatever the order in which an insert lists its columns, the record that a row of literals is
  -- stored as is the one of the key's values in the order of the primary key: for `keys`, which are
  -- the values of the key columns by their positions in the primary key.
  pub build_row-record_id :
      (insert : Insert) (cells : List Cell) (keys : List Value) (rid : SurValue) (content : Object)
      → insert.columns ≡ cell_columns cells
      → Permᴰ (numbered 0 keys) (key_pairs insert.table cells)
      → build_row C insert (cell_row cells) ≡ ok (rid, content)
      → (id : RecordId) × (record_id C insert.table (key_of (numbered 0 keys)) ≡ ok id)
        × (rid ≡ to_value id)
  build_row-record_id insert cells keys rid content e p h =
      let (split, s, c, (id, q, r)) = built_from insert cells rid content e h in
      let pairs = split_row-key_pairs C "insert" insert.table cells [] ([], Object.end) split s in
      (
        id,
        ap (record_id C insert.table)
              (sym (ap pk_to_value pairs ∙ pk_to_value-perm (key_pairs insert.table cells) keys p))
            ∙ q,
        r,
      )
