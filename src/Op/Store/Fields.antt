-- ===== src/Op/Store/Fields.antt =====
-- The columns of a record that an insert has stored, as a select shows them, are decoded to the
-- values that were inserted.
use mathlib.Core.List.Permᴰ.{symm}
use mathlib.Core.List.{Permᴰ}
use toasty_driver_surreal.Prelude.{
  All-In, String, true, false, List, [], ◌∷◌, ◌++◌, Option, ◌≡◌, ap, sym, ◌∙◌, In, All, inl, inr,
  subst, Bool-cases, length, str_eq, arith,
}
use toasty_driver_surreal.Text.{str_eq_comm}
use toasty_driver_surreal.Error.{ok, >>=-eq-ok, ok-injective, ◌>>=◌}
use toasty_driver_surreal.Schema.{Column}
use toasty_driver_surreal.Value.{Value, SurValue, Object, is_json}
use toasty_driver_surreal.Value.Codec.{Codec}
use toasty_driver_surreal.Value.Encode.{to_surreal, to_surreal_for_column}
use toasty_driver_surreal.Value.Decode.{from_surreal_for_column}
use toasty_driver_surreal.Value.RoundTrip.{IsLawful, HasType, column_round_trip}
use toasty_driver_surreal.RecordId.{RecordId, record_id, record_id_key}
use toasty_driver_surreal.Expr.{is_primary_key, position, or_first}
use toasty_driver_surreal.Op.{field_of}
use toasty_driver_surreal.Op.Write.{key_of}
use toasty_driver_surreal.Op.Write.Keys.{numbered, Cell, cell_columns, cell_row, key_pairs}
use toasty_driver_surreal.Op.Insert.{Insert, build_row}
use toasty_driver_surreal.Op.Insert.Content.{IsMap, build_row-from_surreal}
use toasty_driver_surreal.Op.Store.{ShowsColumn, key_field}
use toasty_driver_surreal.Op.Store.Keys.{key-Shown, In-perm, numbered-get, key_pairs-In}

-- No two columns have one name.
abbrev pub IsNamed : List Column → Type 0
IsNamed [] = Unit
IsNamed (column ∷ columns) =
    All (λ (other : Column). str_eq other.name column.name ≡ false) columns × IsNamed columns

In-columns :
    (cells : List Cell) (column : Column) (v : Value)
    → In (column, v) cells
    → In column (cell_columns cells)
In-columns [] column v h = absurd h.lower
In-columns (cell ∷ cells) column v (inl h) = inl (ap (λ (c : Cell). c.0) h)
In-columns (cell ∷ cells) column v (inr h) = inr (In-columns cells column v h)

pub All-columns :
    (P : Column → Type 0) (cells : List Cell)
    → All P (cell_columns cells)
    → All (λ (cell : Cell). P cell.0) cells
All-columns P [] h = tt
All-columns P (cell ∷ cells) (h, hs) = (h, All-columns P cells hs)

-- a cell among the others
split_at :
    (cells : List Cell) (column : Column) (v : Value)
    → In (column, v) cells
    → IsNamed (cell_columns cells)
    → (earlier : List Cell) × ((later : List Cell) × (cells ≡ earlier ++ (column, v) ∷ later)
        × All (λ (cell : Cell). str_eq cell.0.name column.name ≡ false) (earlier ++ later))
split_at [] column v h n = absurd h.lower
split_at (cell ∷ cells) column v (inl h) (n, ns) = (
  [],
  (
    cells,
    ap (λ (c : Cell). c ∷ cells) h,
    All-columns (λ other. str_eq other.name column.name ≡ false) cells
        (subst
          (λ (c : Cell).
            All (λ (other : Column). str_eq other.name c.0.name ≡ false) (cell_columns cells))
          h n),
  ),
)
split_at (cell ∷ cells) column v (inr h) (n, ns) =
    let (earlier, (later, e, others)) = split_at cells column v h ns in
    let apart : str_eq cell.0.name column.name ≡ false =
      str_eq_comm column.name cell.0.name (All-In _ _ _ n (In-columns cells column v h)) in
    (cell ∷ earlier, (later, ap (λ cs. cell ∷ cs) e, (apart, others)))

module _ (C : Codec) (lookup : Object → String → Option SurValue) (L : IsLawful C)
    (laws : IsMap C lookup) where
  decode_stored :
      (v : Value) (column : Column) (s : SurValue)
      → is_json column.storage_ty ≡ false
      → HasType C v column.ty
      → to_surreal C v ≡ ok s
      → from_surreal_for_column C s column ≡ ok v
  unfolding to_surreal_for_column
  decode_stored v column s plain typed e =
      let back = column_round_trip C L v column plain typed in
      let stored : to_surreal_for_column C v column ≡ ok s = rw plain e in
      sym (ap (λ r. r >>= λ x. from_surreal_for_column C x column) stored) ∙ back

  module _ (insert : Insert) (cells : List Cell) (keys : List Value)
      (listed : insert.columns ≡ cell_columns cells) (named : IsNamed (cell_columns cells))
      (perm : Permᴰ (numbered 0 keys) (key_pairs insert.table cells))
      (whole : length keys ≡ length insert.table.primary_key) where
    key_decoded :
        (id : RecordId) (column : Column) (v : Value)
        → record_id C insert.table (key_of (numbered 0 keys)) ≡ ok id
        → In (column, v) cells
        → is_primary_key insert.table column ≡ true
        → is_json column.storage_ty ≡ false
        → HasType C v column.ty
        → from_surreal_for_column C (key_field insert.table column id.key) column ≡ ok v
    unfolding record_id
    key_decoded id column v made h k plain typed =
        let i = or_first (position insert.table.primary_key column.id) in
        let (key, made_key, is) =
          >>=-eq-ok (record_id_key C (key_of (numbered 0 keys)) (length insert.table.primary_key)) _
            made in
        let at_i =
          numbered-get keys 0 i i v (omega arith)
            (In-perm (i, v) (symm perm) (key_pairs-In insert.table cells column v h k)) in
        let shown =
          key-Shown C keys (length insert.table.primary_key) i v column.ty key whole typed made_key
            at_i in
        decode_stored v column (key_field insert.table column id.key) plain typed (
          shown ∙ ap (λ (r : RecordId). ok (key_field insert.table column r.key)) (ok-injective is))

    -- The other columns: a null is left out, and shown as nothing.
    pub column_decoded :
        (rid : SurValue) (content : Object) (id : RecordId) (row : Object)
        → build_row C insert (cell_row cells) ≡ ok (rid, content)
        → record_id C insert.table (key_of (numbered 0 keys)) ≡ ok id
        → (column : Column) (v : Value) → ShowsColumn C lookup insert.table id content row column
        → In (column, v) cells
        → is_json column.storage_ty ≡ false
        → HasType C v column.ty
        → from_surreal_for_column C (field_of C lookup (SurValue.object row) column.name) column
          ≡ ok v
    column_decoded rid content id row built made column v shows h plain typed =
        elim (Bool-cases (is_primary_key insert.table column)) [
          | inl k ↦
              ap (λ x. from_surreal_for_column C x column) (rw k at shows)
              ∙ key_decoded id column v made h k plain typed
          | inr k ↦
              let (earlier, (later, e, others)) = split_at cells column v h named in
              ap (λ x. from_surreal_for_column C x column) (rw k at shows)
              ∙ build_row-from_surreal C lookup laws L insert earlier column v later rid content
                  (listed ∙ ap cell_columns e) others k plain typed
                  (ap (λ cs. build_row C insert (cell_row cs)) (sym e) ∙ built)
        ]
