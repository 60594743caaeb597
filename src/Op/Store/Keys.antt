-- ===== src/Op/Store/Keys.antt =====
-- The values of a primary key in the record id that an insert makes of them.
use mathlib.Core.List.{Permᴰ}
use toasty_driver_surreal.Prelude.{
  ℕ, zero, suc, some-injective, ◌+◌, ◌≤◌, true, false, List, [], ◌∷◌, some, ◌≡◌, refl, ap, sym, ◌∙◌,
  In, inl, inr, subst, Bool-cases, length, leb, ltb, get_elem?, half64, arith, if◌then◌else◌,
}
use toasty_driver_surreal.Error.{ok, >>=-eq-ok, ok-injective, not_ok}
use toasty_driver_surreal.Schema.{Column, Table}
use toasty_driver_surreal.Value.{Value, RecordIdKey, Array, StmtType}
use toasty_driver_surreal.Value.Codec.{Codec}
use toasty_driver_surreal.Value.Encode.{to_surreal, encode_u64}
use toasty_driver_surreal.Value.RoundTrip.{HasType}
use toasty_driver_surreal.RecordId.{
  scalar_to_key, record_id_key, key_elements, scalar_key_value, composite_key,
}
use toasty_driver_surreal.Expr.{is_primary_key, position, or_first}
use toasty_driver_surreal.Op.Write.{to_record, key_of}
use toasty_driver_surreal.Op.Write.Keys.{numbered, Cell, key_pairs}
use toasty_driver_surreal.Op.Store.{key_value, element, key_element}

module _ (C : Codec) where
  abbrev Shown : Value → RecordIdKey → Type 0
  Shown v k = to_surreal C v ≡ ok (key_value k)

  moved : {k k' : RecordIdKey} (v : Value) → ok k ≡ ok k' → Shown v k → Shown v k'
  moved v e s = s ∙ ap (λ k. ok (key_value k)) (ok-injective e)

  -- a key of one column, which is what is stored of the value
  scalar-Shown : (v : Value) (k : RecordIdKey) → scalar_to_key C v ≡ ok k → Shown v k
  unfolding scalar_to_key to_surreal encode_u64
  scalar-Shown (Value.i8 z) k e = moved (Value.i8 z) e refl
  scalar-Shown (Value.i16 z) k e = moved (Value.i16 z) e refl
  scalar-Shown (Value.i32 z) k e = moved (Value.i32 z) e refl
  scalar-Shown (Value.i64 z) k e = moved (Value.i64 z) e refl
  scalar-Shown (Value.u8 n) k e = moved (Value.u8 n) e refl
  scalar-Shown (Value.u16 n) k e = moved (Value.u16 n) e refl
  scalar-Shown (Value.u32 n) k e = moved (Value.u32 n) e refl
  scalar-Shown (Value.u64 n) k e = elim (Bool-cases (ltb n half64)) [
    | inl small ↦ moved (Value.u64 n) (rw small at e) (rw small refl)
    | inr big ↦ absurd (not_ok (rw big at e))
  ]
  scalar-Shown (Value.string s) k e = moved (Value.string s) e refl
  scalar-Shown (Value.uuid u) k e = moved (Value.uuid u) e refl
  scalar-Shown _ k e = absurd (not_ok e)

  -- a key of several
  elements-Shown :
      (ps : List Value) (i n : ℕ) (v : Value) (a : Array)
      → key_elements C (to_record (numbered n ps)) ≡ ok a
      → get_elem? ps i ≡ some v
      → to_surreal C v ≡ ok (element a i)
  unfolding key_elements scalar_key_value
  elements-Shown [] i n v a e g = cc
  elements-Shown (p ∷ ps) zero n v a e g =
      let (first, stored, h) = >>=-eq-ok (to_surreal C p) _ e in
      let (rest, others, h₁) = >>=-eq-ok (key_elements C (to_record (numbered (suc n) ps))) _ h in
      subst (λ b. to_surreal C v ≡ ok (element b 0)) (ok-injective h₁)
        (ap (to_surreal C) (sym (some-injective g)) ∙ stored)
  elements-Shown (p ∷ ps) (suc i) n v a e g =
      let (first, stored, h) = >>=-eq-ok (to_surreal C p) _ e in
      let (rest, others, h₁) = >>=-eq-ok (key_elements C (to_record (numbered (suc n) ps))) _ h in
      subst (λ b. to_surreal C v ≡ ok (element b (suc i))) (ok-injective h₁)
        (elements-Shown ps i (suc n) v rest others g)

  -- a key of one column is no record
  single :
      (v : Value) (ty : StmtType) (n : ℕ) → HasType C v ty → record_id_key C v n ≡ scalar_to_key C v
  unfolding record_id_key HasType
  single (Value.record_value fields) ty n h = elim h [ ]
  single _ ty n h = refl

  -- the i-th value of a key, by the number of its columns
  pub key-Shown :
      (keys : List Value) (n i : ℕ) (v : Value) (ty : StmtType) (k : RecordIdKey)
      → length keys ≡ n
      → HasType C v ty
      → record_id_key C (key_of (numbered 0 keys)) n ≡ ok k
      → get_elem? keys i ≡ some v
      → to_surreal C v ≡ ok (if leb n 1 then key_value k else key_element k i)
  unfolding record_id_key composite_key
  key-Shown [] n i v ty k l h e g = cc
  key-Shown (w ∷ []) n zero v ty k l h e g =
      let one : leb n 1 ≡ true = ground arith in
      let same : w ≡ v = some-injective g in
      rw one
        (scalar-Shown v k (sym (single v ty n h) ∙ ap (λ x. record_id_key C x n) (sym same) ∙ e))
  key-Shown (w ∷ []) n (suc i) v ty k l h e g = cc
  key-Shown (w ∷ x ∷ ws) n i v ty k l h e g =
      let many : leb n 1 ≡ false = ground arith in
      let (a, made, is) =
        >>=-eq-ok (key_elements C (to_record (numbered 0 (w ∷ x ∷ ws)))) _ (rw many at e) in
      rw many (
        subst (λ key. to_surreal C v ≡ ok (key_element key i)) (ok-injective is)
          (elements-Shown (w ∷ x ∷ ws) i 0 v a made g))

-- where the value of a key column stands in the key
pub In-perm : {A : Type 0} (p : A) {l r : List A} → Permᴰ l r → In p l → In p r
In-perm p Permᴰ.nil h = h
In-perm p (Permᴰ.cons e d) (inl h) = inl (sym e ∙ h)
In-perm p (Permᴰ.cons e d) (inr h) = inr (In-perm p d h)
In-perm p (Permᴰ.swap e f) (inl h) = inr (inl (sym e ∙ h))
In-perm p (Permᴰ.swap e f) (inr (inl h)) = inl (sym f ∙ h)
In-perm p (Permᴰ.swap e f) (inr (inr h)) = inr (inr h)
In-perm p (Permᴰ.trans d e) h = In-perm p e (In-perm p d h)

numbered-above : (keys : List Value) (j i : ℕ) (v : Value) → In (i, v) (numbered j keys) → j ≤ i
numbered-above [] j i v h = absurd h.lower
numbered-above (k ∷ keys) j i v (inl h) =
    let same : j ≡ i = ap (λ (p : ℕ × Value). p.0) h in omega arith
numbered-above (k ∷ keys) j i v (inr h) = omega (arith, numbered-above keys (suc j) i v h)

pub numbered-get :
    (keys : List Value) (j i n : ℕ) (v : Value)
    → i ≡ j + n
    → In (i, v) (numbered j keys)
    → get_elem? keys n ≡ some v
numbered-get [] j i n v e h = absurd h.lower
numbered-get (k ∷ keys) j i zero v e (inl h) = ap (λ (p : ℕ × Value). some p.1) h
numbered-get (k ∷ keys) j i (suc n) v e (inl h) =
    let same : j ≡ i = ap (λ (p : ℕ × Value). p.0) h in absurd (omega arith)
numbered-get (k ∷ keys) j i zero v e (inr h) =
    let above = numbered-above keys (suc j) i v h in absurd (omega arith)
numbered-get (k ∷ keys) j i (suc n) v e (inr h) = numbered-get keys (suc j) i n v (omega arith) h

pub key_pairs-In :
    (table : Table) (cells : List Cell) (column : Column) (v : Value)
    → In (column, v) cells
    → is_primary_key table column ≡ true
    → In (or_first (position table.primary_key column.id), v) (key_pairs table cells)
unfolding key_pairs
key_pairs-In table [] column v h k = absurd h.lower
key_pairs-In table ((c, w) ∷ cells) column v (inl h) k =
    let named : c ≡ column = ap (λ (cell : Cell). cell.0) h in
    let valued : w ≡ v = ap (λ (cell : Cell). cell.1) h in
    rw (named, k) (inl (ap (λ x. (or_first (position table.primary_key column.id), x)) valued))
key_pairs-In table ((c, w) ∷ cells) column v (inr h) k =
    elim (Bool-cases (is_primary_key table c)) [
      | inl e ↦ rw e (inr (key_pairs-In table cells column v h k))
      | inr e ↦ rw e (key_pairs-In table cells column v h k)
    ]
