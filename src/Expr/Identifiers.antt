-- ===== src/Expr/Identifiers.antt =====
-- Quoted identifiers and references to columns can be told apart.
use Prim.Native.Char.{code}
use text.Mathlib.TextLemmas.{
  cons-append, nil-append, append-nil, append_assoc, append_cancel_left, append_cancel_right,
}
use toasty_driver_surreal.Prelude.{
  some-injective, ℕ, zero, suc, String, ◌<>◌, true, false, List, [], ◌∷◌, Option, none, some, ◌≡◌,
  refl, ap, sym, ◌∙◌, length, arith, Bool-cases, inl, inr, ◌⊎◌, leb, if◌then◌else◌, get_elem?, ◌==◌,
}
use toasty_driver_surreal.Text.{decimal}
use toasty_driver_surreal.Text.Quote.{read_quoted, StartsOther, read_quoted-doubled}
use toasty_driver_surreal.Text.Decimal.{decimal-injective}
use toasty_driver_surreal.Schema.{
  ColumnId, Column, Table, same_column, same_column_iff, contains_column,
}
use toasty_driver_surreal.Expr.{escape_ident, is_primary_key, position, or_first, column_ref}

-- What `escape_ident` was given, and the text behind: its inverse, which serves to tell quoted names
-- apart. SurrealQL does not read them so.
undouble : String → Option (String × String)
undouble String.[] = none
undouble (String.◌∷◌ c s) = if code c == b'`' then read_quoted b'`' s else none

undouble-escape_ident :
    (name rest : String)
    → StartsOther b'`' rest
    → undouble (escape_ident name <> rest) ≡ some (name, rest)
unfolding undouble escape_ident
undouble-escape_ident name rest h =
    rw (append_assoc, append_assoc, cons-append, nil-append, cons-append, nil-append)
      (read_quoted-doubled "`" name rest h)

read_whole : (name : String) → undouble (escape_ident name) ≡ some (name, String.[])
read_whole name =
    ap undouble (sym (append-nil (escape_ident name))) ∙ undouble-escape_ident name String.[] tt

abbrev name_of : Option (String × String) → String
name_of none = ""
name_of (some (name, rest)) = name

escape_ident-injective : (a b : String) → escape_ident a ≡ escape_ident b → a ≡ b
escape_ident-injective a b e =
    sym (ap name_of (read_whole a)) ∙ ap (λ s. name_of (undouble s)) e ∙ ap name_of (read_whole b)

-- the reference to the i-th of several key columns
abbrev element : ℕ → String
element i = "record::id(id)[" <> decimal i <> "]"

read-element : (i : ℕ) → undouble (element i) ≡ none
unfolding undouble
read-element i = rw cons-append refl

element-injective : (i j : ℕ) → element i ≡ element j → i ≡ j
element-injective i j e =
    decimal-injective i j (append_cancel_right _ _ "]" (append_cancel_left "record::id(id)[" _ _ e))

none-ne-some {ℓ} : {A : Type ℓ} {a : A} → none ≡ some a → ⊥
none-ne-some h = cc

-- a column that is found stands at its position
abbrev Found : List ColumnId → ColumnId → Type 0
Found ids id = (k : ℕ) × (position ids id ≡ some k) × (get_elem? ids k ≡ some id)

found : (ids : List ColumnId) (id : ColumnId) → contains_column ids id ≡ true → Found ids id
unfolding position
found [] id h = cc
found (x ∷ ids) id h = elim (Bool-cases (same_column x id)) [
  | inl e ↦ (zero, rw e refl, ap some ((same_column_iff x id).0 e))
  | inr e ↦ let (k, p, g) = found ids id (rw e at h) in (suc k, rw (e, p) refl, g)
]

same_position :
    (ids : List ColumnId) (a b : ColumnId)
    → contains_column ids a ≡ true
    → contains_column ids b ≡ true
    → or_first (position ids a) ≡ or_first (position ids b)
    → a ≡ b
same_position ids a b ha hb e =
    let (i, p, g) = found ids a ha in
    let (j, q, k) = found ids b hb in
    let ij : i ≡ j = sym (ap or_first p) ∙ e ∙ ap or_first q in
    some-injective (sym g ∙ ap (get_elem? ids) ij ∙ k)

only_key :
    (ids : List ColumnId) (a b : ColumnId)
    → leb (length ids) 1 ≡ true
    → contains_column ids a ≡ true
    → contains_column ids b ≡ true
    → a ≡ b
only_key [] a b l ha hb = cc
only_key (x ∷ []) a b l ha hb = ground (arith, same_column_iff x a, same_column_iff x b)
only_key (x ∷ y ∷ ids) a b l ha hb = absurd (ground arith)

-- Two columns that a table's references do not tell apart: the same key column, or two columns
-- that are no key and have the same name.
abbrev pub SameReference : Table → Column → Column → Type 0
SameReference table a b =
    ((is_primary_key table a ≡ true) × (is_primary_key table b ≡ true) × (a.id ≡ b.id))
    ⊎ ((is_primary_key table a ≡ false) × (is_primary_key table b ≡ false) × (a.name ≡ b.name))

key_text :
    (table : Table) (c : Column)
    → is_primary_key table c ≡ true
    → column_ref table c ≡ (
        if leb (length table.primary_key) 1
        then "record::id(id)"
        else element (or_first (position table.primary_key c.id)))
unfolding column_ref
key_text table c h = rw h refl

name_text :
    (table : Table) (c : Column)
    → is_primary_key table c ≡ false
    → column_ref table c ≡ escape_ident c.name
unfolding column_ref
name_text table c h = rw h refl

read-key :
    (table : Table) (c : Column)
    → is_primary_key table c ≡ true
    → undouble (column_ref table c) ≡ none
unfolding undouble
read-key table c h = elim (Bool-cases (leb (length table.primary_key) 1)) [
  | inl l ↦ rw (key_text table c h, l) refl
  | inr l ↦ rw (key_text table c h, l) (read-element _)
]

same_key :
    (table : Table) (a b : Column)
    → is_primary_key table a ≡ true
    → is_primary_key table b ≡ true
    → column_ref table a ≡ column_ref table b
    → a.id ≡ b.id
unfolding is_primary_key
same_key table a b ha hb e = elim (Bool-cases (leb (length table.primary_key) 1)) [
  | inl l ↦ only_key table.primary_key a.id b.id l ha hb
  | inr l ↦
      same_position table.primary_key a.id b.id ha hb
        (element-injective _ _ (rw l at (sym (key_text table a ha) ∙ e ∙ key_text table b hb)))
]

key_not_name :
    (table : Table) (a b : Column)
    → is_primary_key table a ≡ true
    → is_primary_key table b ≡ false
    → column_ref table a ≡ column_ref table b
    → ⊥
key_not_name table a b ha hb e =
    none-ne-some
      (sym (read-key table a ha) ∙ ap undouble (e ∙ name_text table b hb) ∙ read_whole b.name)

-- The reference to a column names it: two columns of a table have the same reference only when
-- both are the same column of the primary key, at whatever position of however many, or neither is
-- a key column and their names are equal.
pub column_ref-injective :
    (table : Table) (a b : Column)
    → column_ref table a ≡ column_ref table b
    → SameReference table a b
column_ref-injective table a b e = elim (Bool-cases (is_primary_key table a)) [
  | inl ha ↦ elim (Bool-cases (is_primary_key table b)) [
    | inl hb ↦ inl (ha, hb, same_key table a b ha hb e)
    | inr hb ↦ absurd (key_not_name table a b ha hb e)
  ]
  | inr ha ↦ elim (Bool-cases (is_primary_key table b)) [
    | inl hb ↦ absurd (key_not_name table b a hb ha (sym e))
    | inr hb ↦
        inr (
          ha,
          hb,
          escape_ident-injective _ _ (sym (name_text table a ha) ∙ e ∙ name_text table b hb),
        )
  ]
]
