-- ===== src/Op/Write/Keys.antt =====
-- The key of a row, and the order in which an insert or an upsert lists the columns.
use mathlib.Core.List.{Permᴰ, append_assoc, append-nil}
use toasty_driver_surreal.Prelude.{
  ◌<◌, ℕ, suc, String, Bool, true, false, List, [], ◌∷◌, ◌++◌, some, ◌≡◌, refl, ap, sym, ◌∙◌, subst,
  length, get_elem?, ◌==◌, All, map, if◌then◌else◌, arith,
}
use toasty_driver_surreal.Error.{ok, >>=-eq-ok, ok-injective}
use toasty_driver_surreal.Schema.{Column, Table}
use toasty_driver_surreal.Value.{Value, is_null}
use toasty_driver_surreal.Value.Codec.{Codec}
use toasty_driver_surreal.Value.Encode.{to_surreal_for_column}
use toasty_driver_surreal.Expr.{is_primary_key, position, or_first}
use toasty_driver_surreal.Op.Write.{
  Entry, Row, Split, insert_by_position, sort_by_position, key_of, pk_to_value, row_value,
  literal_entry, split_cell, split_row,
}

-- Values at the positions from `i` on.
abbrev pub numbered : ℕ → List Value → List (ℕ × Value)
numbered i [] = []
numbered i (v ∷ vs) = (i, v) ∷ numbered (suc i) vs

abbrev Apart : ℕ × Value → ℕ × Value → Type 0
Apart a b = (a.0 == b.0) ≡ false

abbrev Distinct : List (ℕ × Value) → Type 0
Distinct [] = Unit
Distinct (p ∷ ps) = All (Apart p) ps × Distinct ps

All-perm : (P : ℕ × Value → Type 0) {l r : List (ℕ × Value)} → Permᴰ l r → All P l → All P r
All-perm P Permᴰ.nil h = tt
All-perm P (Permᴰ.cons e d) (h, hs) = (subst P e h, All-perm P d hs)
All-perm P (Permᴰ.swap e f) (h, (k, hs)) = (subst P f k, (subst P e h, hs))
All-perm P (Permᴰ.trans d e) h = All-perm P e (All-perm P d h)

Apart-sym : (a b : ℕ × Value) → Apart a b → Apart b a
Apart-sym a b h = ground arith

Distinct-perm : {l r : List (ℕ × Value)} → Permᴰ l r → Distinct l → Distinct r
Distinct-perm Permᴰ.nil h = tt
Distinct-perm (Permᴰ.cons {a = a} {l₂ = r} e d) (h, hs) =
    (subst (λ x. All (Apart x) r) e (All-perm (Apart a) d h), Distinct-perm d hs)
Distinct-perm (Permᴰ.swap {a = a} {b = b} {b' = b'} {l = l} e f) ((ab, al), (bl, hs)) = (
  (
    subst (λ x. Apart x b') f (subst (Apart b) e (Apart-sym a b ab)),
    subst (λ x. All (Apart x) l) f bl,
  ),
  (subst (λ x. All (Apart x) l) e al, hs),
)
Distinct-perm (Permᴰ.trans d e) h = Distinct-perm e (Distinct-perm d h)

insert_comm :
    (a b : ℕ × Value) (l : List (ℕ × Value))
    → Apart a b
    → insert_by_position a (insert_by_position b l) ≡ insert_by_position b (insert_by_position a l)
unfolding insert_by_position
insert_comm a b [] h = ground arith
insert_comm a b (c ∷ l) h = ground (arith, insert_comm a b l h)

-- rearranging pairs with different positions does not change what the sort makes of them
sort-perm :
    {l r : List (ℕ × Value)} → Permᴰ l r → Distinct l → sort_by_position l ≡ sort_by_position r
unfolding sort_by_position
sort-perm Permᴰ.nil h = refl
sort-perm (Permᴰ.cons {b = b} {l₁ = l} e d) (h, hs) =
    ap (λ x. insert_by_position x (sort_by_position l)) e
    ∙ ap (insert_by_position b) (sort-perm d hs)
sort-perm (Permᴰ.swap {a = a} {b = b} {a' = a'} {l = l} e f) ((ab, al), (bl, hs)) =
    insert_comm a b (sort_by_position l) ab
    ∙ ap (λ x. insert_by_position x (insert_by_position a (sort_by_position l))) f
    ∙ ap (λ x. insert_by_position a' (insert_by_position x (sort_by_position l))) e
sort-perm (Permᴰ.trans d e) h = sort-perm d h ∙ sort-perm e (Distinct-perm d h)

behind : (i k : ℕ) (v : Value) (vs : List Value) → i < k → All (Apart (i, v)) (numbered k vs)
behind i k v [] h = tt
behind i k v (w ∷ vs) h = (ground arith, behind i (suc k) v vs (omega arith))

numbered-Distinct : (i : ℕ) (vs : List Value) → Distinct (numbered i vs)
numbered-Distinct i [] = tt
numbered-Distinct i (v ∷ vs) = (behind i (suc i) v vs (omega arith), numbered-Distinct (suc i) vs)

insert_first :
    (i : ℕ) (v : Value) (vs : List Value)
    → insert_by_position (i, v) (numbered (suc i) vs) ≡ (i, v) ∷ numbered (suc i) vs
unfolding insert_by_position
insert_first i v [] = refl
insert_first i v (w ∷ vs) = ground arith

sort-numbered : (i : ℕ) (vs : List Value) → sort_by_position (numbered i vs) ≡ numbered i vs
unfolding sort_by_position
sort-numbered i [] = refl
sort-numbered i (v ∷ vs) =
    ap (insert_by_position (i, v)) (sort-numbered (suc i) vs) ∙ insert_first i v vs

-- the sort brings the values into the order of their positions, whatever order they came in
pub pk_to_value-perm :
    (ps : List (ℕ × Value)) (vs : List Value)
    → Permᴰ (numbered 0 vs) ps
    → pk_to_value ps ≡ key_of (numbered 0 vs)
unfolding pk_to_value
pk_to_value-perm ps vs d =
    ap key_of (sym (sort-perm d (numbered-Distinct 0 vs)) ∙ sort-numbered 0 vs)

-- A column with the literal that a row gives it.
abbrev pub Cell : Type 0
Cell = Column × Value

abbrev pub cell_columns : List Cell → List Column
cell_columns cells = map (λ (cell : Cell). cell.0) cells

abbrev pub cell_row : List Cell → Row
cell_row cells = map (λ (cell : Cell). Entry.value cell.1) cells

-- The values of the key columns, with their positions in the primary key, in the row's order.
unfoldable pub key_pairs : Table → List Cell → List (ℕ × Value)
key_pairs table [] = []
key_pairs table ((column, v) ∷ cells) =
    if is_primary_key table column
    then (or_first (position table.primary_key column.id), v) ∷ key_pairs table cells
    else key_pairs table cells

get_elem-behind :
    (front : Row) (entry : Entry) (back : Row)
    → get_elem? (front ++ entry ∷ back) (length front) ≡ some entry
get_elem-behind [] entry back = refl
get_elem-behind (e ∷ front) entry back = get_elem-behind front entry back

pub length-snoc : {A : Type 0} (xs : List A) (x : A) → suc (length xs) ≡ length (xs ++ x ∷ [])
length-snoc [] x = refl
length-snoc (y ∷ xs) x = ap suc (length-snoc xs x)

module _ (C : Codec) (verb : String) (table : Table) where
  pub row_value-behind :
      (front : Row) (v : Value) (back : Row)
      → row_value verb (front ++ Entry.value v ∷ back) (length front) ≡ ok v
  unfolding row_value literal_entry
  row_value-behind front v back = rw (get_elem-behind front (Entry.value v) back) refl

  -- A step of the loop, at the cell behind `front`.
  pub split_row-step :
      (front : Row) (column : Column) (v : Value) (cells : List Cell) (before after : Split)
      → split_row C verb table
          (front ++ Entry.value v ∷ cell_row cells)
          (length front)
          (column ∷ cell_columns cells)
          before
        ≡ ok after
      → (next : Split) × (split_cell C
            (is_primary_key table column)
            (is_null v)
            table
            column
            v
            before
          ≡ ok next)
        × (split_row C verb table
              ((front ++ Entry.value v ∷ []) ++ cell_row cells)
              (length (front ++ Entry.value v ∷ []))
              (cell_columns cells)
              next
            ≡ ok after)
  unfolding split_row
  split_row-step front column v cells before after h =
      let row : Row = front ++ Entry.value v ∷ cell_row cells in
      let (next, placed, rest) =
        >>=-eq-ok (split_cell C (is_primary_key table column) (is_null v) table column v before) _
          (rw (row_value-behind front v (cell_row cells)) at h) in
      (
        next,
        placed,
        subst
            (λ (r : Row).
              split_row C verb table r (length (front ++ Entry.value v ∷ [])) (cell_columns cells)
                next
              ≡ ok after)
            (sym (append_assoc front (Entry.value v ∷ []) (cell_row cells)))
            (subst (λ i. split_row C verb table row i (cell_columns cells) next ≡ ok after)
              (length-snoc front (Entry.value v)) rest),
      )

  placed_keys :
      (key null : Bool) (column : Column) (v : Value) (ps : List (ℕ × Value)) (before next : Split)
      → split_cell C key null table column v before ≡ ok next
      → next.0 ++ ps
        ≡ before.0
          ++ (if key then (or_first (position table.primary_key column.id), v) ∷ ps else ps)
  unfolding split_cell
  placed_keys true null column v ps before next h =
      ap (λ (s : Split). s.0 ++ ps) (sym (ok-injective h)) ∙ append_assoc before.0 _ ps
  placed_keys false true column v ps before next h =
      ap (λ (s : Split). s.0 ++ ps) (sym (ok-injective h))
  placed_keys false false column v ps before next h =
      let (stored, e, placed) = >>=-eq-ok (to_surreal_for_column C v column) _ h in
      ap (λ (s : Split). s.0 ++ ps) (sym (ok-injective placed))

  -- The pairs that the loop collects are those of the key columns, in the order of the row.
  pub split_row-key_pairs :
      (cells : List Cell) (front : Row) (before after : Split)
      → split_row C verb table (front ++ cell_row cells) (length front) (cell_columns cells) before
        ≡ ok after
      → after.0 ≡ before.0 ++ key_pairs table cells
  unfolding split_row key_pairs
  split_row-key_pairs [] front before after h =
      ap (λ (s : Split). s.0) (sym (ok-injective h)) ∙ sym (append-nil before.0)
  split_row-key_pairs ((column, v) ∷ cells) front before after h =
      let (next, placed, rest) = split_row-step front column v cells before after h in
      split_row-key_pairs cells (front ++ Entry.value v ∷ []) next after rest
      ∙ placed_keys (is_primary_key table column) (is_null v) column v (key_pairs table cells)
          before next placed
