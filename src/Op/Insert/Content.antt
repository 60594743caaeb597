-- ===== src/Op/Insert/Content.antt =====
-- The fields that the content of an insert holds.
use toasty_driver_surreal.Prelude.{
  String, Bool, true, false, List, [], ◌∷◌, ◌++◌, Option, none, some, ◌≡◌, refl, ap, sym, ◌∙◌, ◌⊎◌,
  inl, inr, subst, length, str_eq, All, All-append_left, All-append_right,
}
use toasty_driver_surreal.Error.{ok, ◌>>=◌, >>=-eq-ok, ok-injective}
use toasty_driver_surreal.Schema.{Column, Table}
use toasty_driver_surreal.Value.{Value, SurValue, Object, is_null, is_json}
use toasty_driver_surreal.Value.Codec.{Codec}
use toasty_driver_surreal.Value.Encode.{to_surreal_for_column}
use toasty_driver_surreal.Value.Decode.{
  from_surreal_for_column, from_surreal_with_storage, from_surreal,
}
use toasty_driver_surreal.Value.RoundTrip.{IsLawful, HasType, column_round_trip}
use toasty_driver_surreal.Expr.{is_primary_key}
use toasty_driver_surreal.Op.{field_of}
use toasty_driver_surreal.Op.Write.{Entry, Row, Split, split_cell, split_row}
use toasty_driver_surreal.Op.Write.Keys.{Cell, cell_columns, cell_row, split_row-step}
use toasty_driver_surreal.Op.Insert.{Insert, build_row}
use toasty_driver_surreal.Op.Insert.Stored.{built_from}

-- What the fields of an object do in it: none at first, and an inserted one is found under its name
-- alone.
pub record IsMap (C : Codec) (lookup : Object → String → Option SurValue) : Type 0 where
  pub empty : (name : String) → lookup Object.end name ≡ none
  pub inserted :
      (name : String) (v : SurValue) (o : Object)
      → lookup o name ≡ none
      → lookup (C.object_insert name v o) name ≡ some v
  pub others :
      (other name : String) (v : SurValue) (o : Object)
      → str_eq other name ≡ false
      → lookup (C.object_insert other v o) name ≡ lookup o name

module _ (C : Codec) (lookup : Object → String → Option SurValue) (laws : IsMap C lookup)
    (table : Table) (name : String) where
  -- the cell's column has another name
  abbrev pub Other : Cell → Type 0
  Other (column, v) = str_eq column.name name ≡ false

  cell_kept :
      (key null : Bool) (column : Column) (v : Value) (before after : Split)
      → str_eq column.name name ≡ false
      → split_cell C key null table column v before ≡ ok after
      → lookup after.1 name ≡ lookup before.1 name
  unfolding split_cell
  cell_kept true null column v before after o h =
      ap (λ (s : Split). lookup s.1 name) (sym (ok-injective h))
  cell_kept false true column v before after o h =
      ap (λ (s : Split). lookup s.1 name) (sym (ok-injective h))
  cell_kept false false column v before after o h =
      let (stored, e, placed) = >>=-eq-ok (to_surreal_for_column C v column) _ h in
      ap (λ (s : Split). lookup s.1 name) (sym (ok-injective placed))
      ∙ laws.others column.name name stored before.1 o

  -- the rest of a row after `front`
  abbrev Splits : Row → List Cell → Split → Split → Type 0
  Splits front cells before after =
      split_row C "insert" table (front ++ cell_row cells) (length front) (cell_columns cells)
        before
      ≡ ok after

  row_kept :
      (cells : List Cell) (front : Row) (before after : Split)
      → All Other cells
      → Splits front cells before after
      → lookup after.1 name ≡ lookup before.1 name
  unfolding split_row
  row_kept [] front before after o h = ap (λ (s : Split). lookup s.1 name) (sym (ok-injective h))
  row_kept ((column, v) ∷ cells) front before after (o, os) h =
      let (next, placed, rest) =
        split_row-step C "insert" table front column v cells before after h in
      row_kept cells (front ++ Entry.value v ∷ []) next after os rest
      ∙ cell_kept (is_primary_key table column) (is_null v) column v before next o placed

  -- A null is left out; another value is there in its stored form.
  abbrev Stored : Column → Value → Option SurValue → Type 0
  Stored column v field =
      ((v ≡ Value.null) × (field ≡ none))
      ⊎ ((s : SurValue) × (to_surreal_for_column C v column ≡ ok s) × (field ≡ some s))

  is_null-eq : (v : Value) → is_null v ≡ true → v ≡ Value.null
  is_null-eq Value.null h = refl
  is_null-eq v h = cc

  cell-Stored :
      (null : Bool) (column : Column) (v : Value) (before after : Split)
      → is_null v ≡ null
      → column.name ≡ name
      → lookup before.1 name ≡ none
      → split_cell C false null table column v before ≡ ok after
      → Stored column v (lookup after.1 name)
  unfolding split_cell
  cell-Stored true column v before after n c before_none h =
      inl (is_null-eq v n, ap (λ (s : Split). lookup s.1 name) (sym (ok-injective h)) ∙ before_none)
  cell-Stored false column v before after n c before_none h =
      let (stored, e, placed) = >>=-eq-ok (to_surreal_for_column C v column) _ h in
      inr (
        stored,
        e,
        ap (λ (s : Split). lookup s.1 name) (sym (ok-injective placed))
            ∙ subst (λ m. lookup (C.object_insert m stored before.1) name ≡ some stored) (sym c)
                (laws.inserted name stored before.1 before_none),
      )

  row-Stored :
      (earlier : List Cell) (column : Column) (v : Value) (later : List Cell) (front : Row)
      (before after : Split)
      → All Other earlier
      → All Other later
      → is_primary_key table column ≡ false
      → column.name ≡ name
      → lookup before.1 name ≡ none
      → Splits front (earlier ++ (column, v) ∷ later) before after
      → Stored column v (lookup after.1 name)
  row-Stored [] column v later front before after os ls k c e h =
      let (next, placed, rest) =
        split_row-step C "insert" table front column v later before after h in
      subst (Stored column v)
        (sym (row_kept later (front ++ Entry.value v ∷ []) next after ls rest))
        (cell-Stored (is_null v) column v before next refl c e (rw k at placed))
  row-Stored ((first, w) ∷ earlier) column v later front before after (o, os) ls k c e h =
      let cells = earlier ++ (column, v) ∷ later in
      let (next, placed, rest) =
        split_row-step C "insert" table front first w cells before after h in
      row-Stored earlier column v later (front ++ Entry.value w ∷ []) next after os ls k c
        (cell_kept (is_primary_key table first) (is_null w) first w before next o placed ∙ e) rest

module _ (C : Codec) (lookup : Object → String → Option SurValue) (laws : IsMap C lookup)
    (L : IsLawful C) where
  field_read :
      (table : Table) (column : Column) (v : Value) (content : Object)
      → is_json column.storage_ty ≡ false
      → HasType C v column.ty
      → Stored C lookup laws table column.name column v (lookup content column.name)
      → from_surreal_for_column C (field_of C lookup (SurValue.object content) column.name) column
        ≡ ok v
  unfolding field_of from_surreal_for_column from_surreal_with_storage from_surreal
  field_read table column v content plain typed (inl (n, e)) = rw (e, plain, n) refl
  field_read table column v content plain typed (inr (s, e, f)) =
      let back = column_round_trip C L v column plain typed in
      rw f (sym (ap (λ r. r >>= λ x. from_surreal_for_column C x column) e) ∙ back)

  -- For every lawful codec, the value of a column that is neither in the primary key nor native
  -- JSON, of the column's type, is read back as it was from the content that an insert stores: null
  -- from a field that is left out. The other columns of the row have other names.
  pub build_row-from_surreal :
      (insert : Insert) (earlier : List Cell) (column : Column) (v : Value) (later : List Cell)
      (rid : SurValue) (content : Object)
      → insert.columns ≡ cell_columns (earlier ++ (column, v) ∷ later)
      → All (λ (cell : Cell). str_eq cell.0.name column.name ≡ false) (earlier ++ later)
      → is_primary_key insert.table column ≡ false
      → is_json column.storage_ty ≡ false
      → HasType C v column.ty
      → build_row C insert (cell_row (earlier ++ (column, v) ∷ later)) ≡ ok (rid, content)
      → from_surreal_for_column C (field_of C lookup (SurValue.object content) column.name) column
        ≡ ok v
  build_row-from_surreal insert earlier column v later rid content e o k plain typed h =
      let (split, s, c, named) =
        built_from C insert (earlier ++ (column, v) ∷ later) rid content e h in
      field_read insert.table column v content plain typed (
        subst (λ x. Stored C lookup laws insert.table column.name column v (lookup x column.name)) c
          (row-Stored C lookup laws insert.table column.name earlier column v later []
            ([], Object.end) split (All-append_left _ earlier later o)
            (All-append_right _ earlier later o) k refl (laws.empty column.name) s))
