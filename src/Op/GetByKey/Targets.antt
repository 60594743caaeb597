-- ===== src/Op/GetByKey/Targets.antt =====
-- What the keys of a read by key are bound to.
use text.Mathlib.TextLemmas.{append_cancel_left}
use toasty_driver_surreal.Prelude.{
  some-injective, ℕ, zero, suc, ◌+◌, String, ◌<>◌, false, List, [], ◌∷◌, Option, some, ◌≡◌, refl,
  ap, sym, ◌∙◌, get_elem?, str_eq, eq_iff, arith, ◌==◌, subst,
}
use toasty_driver_surreal.Text.{decimal}
use toasty_driver_surreal.Text.Decimal.{decimal-injective}
use toasty_driver_surreal.Error.{ok, >>=-eq-ok, ok-injective}
use toasty_driver_surreal.Schema.{Table}
use toasty_driver_surreal.Value.{Value, SurValue}
use toasty_driver_surreal.Value.Codec.{Codec}
use toasty_driver_surreal.RecordId.{RecordId, record_id, to_value}
use toasty_driver_surreal.Expr.{Binds}
use toasty_driver_surreal.Expr.Fragment.Numbering.{bound}
use toasty_driver_surreal.Op.GetByKey.{key_targets}

abbrev name : ℕ → String
name i = "k" <> decimal i

name-injective : (i j : ℕ) → name i ≡ name j → i ≡ j
name-injective i j e = decimal-injective i j (append_cancel_left "k" (decimal i) (decimal j) e)

same_name : (i j : ℕ) → str_eq (name i) (name j) ≡ (i == j)
same_name i j = ground (arith, eq_iff (name i) (name j), ap name, name-injective i j)

module _ (C : Codec) (table : Table) where
  -- the n-th target is bound to the record id of the key
  abbrev pub Targets : ℕ → Value → Option String → Option SurValue → Type 0
  Targets n key target value =
      (target ≡ some ("$k" <> decimal n))
      × ((rid : RecordId) × (record_id C table key ≡ ok rid) × (value ≡ some (to_value rid)))

  bound-here : (n : ℕ) (v : SurValue) (rest : Binds) → bound (name n) ((name n, v) ∷ rest) ≡ some v
  unfolding bound
  bound-here n v rest = rw ((eq_iff (name n) (name n)).1 refl) refl

  bound-later :
      (i n : ℕ) (v : SurValue) (rest : Binds)
      → (i == n) ≡ false
      → bound (name n) ((name i, v) ∷ rest) ≡ bound (name n) rest
  unfolding bound
  bound-later i n v rest e = rw (same_name i n, e) refl

  first_target :
      (i n : ℕ) (k key : Value) (rid : RecordId) (rest : Binds)
      → i ≡ n
      → k ≡ key
      → record_id C table k ≡ ok rid
      → Targets n key (some ("$k" <> decimal i)) (bound (name n) ((name i, to_value rid) ∷ rest))
  first_target i n k key rid rest e d r = (
    ap (λ x. some ("$k" <> decimal x)) e,
    (
      rid,
      ap (record_id C table) (sym d) ∙ r,
      ap (λ x. bound (name n) ((name x, to_value rid) ∷ rest)) e ∙ bound-here n (to_value rid) rest,
    ),
  )

  Targets-from :
      (keys : List Value) (i j n : ℕ) (key : Value) (made : List String × Binds)
      → key_targets C table i keys ≡ ok made
      → get_elem? keys j ≡ some key
      → n ≡ i + j
      → Targets n key (get_elem? made.0 j) (bound (name n) made.1)
  unfolding key_targets
  Targets-from [] i j n key made h g e = cc
  Targets-from (k ∷ keys) i zero n key made h g e =
      let (rid, r, h₁) = >>=-eq-ok (record_id C table k) _ h in
      let (rest, p, h₂) = >>=-eq-ok (key_targets C table (suc i) keys) _ h₁ in
      subst (λ (m : List String × Binds). Targets n key (get_elem? m.0 0) (bound (name n) m.1))
        (ok-injective h₂) (first_target i n k key rid rest.1 (omega arith) (some-injective g) r)
  Targets-from (k ∷ keys) i (suc j) n key made h g e =
      let (rid, r, h₁) = >>=-eq-ok (record_id C table k) _ h in
      let (rest, p, h₂) = >>=-eq-ok (key_targets C table (suc i) keys) _ h₁ in
      subst
        (λ (m : List String × Binds). Targets n key (get_elem? m.0 (suc j)) (bound (name n) m.1))
        (ok-injective h₂)
        (subst (Targets n key (get_elem? rest.0 j))
          (sym (bound-later i n (to_value rid) rest.1 (ground arith)))
          (Targets-from keys (suc i) j n key rest p g (omega arith)))

  -- When the keys of a read by key all give record ids, the n-th target is the parameter `$k{n}`,
  -- and it is bound to the record id of the n-th key.
  pub key_targets-get_elem? :
      (keys : List Value) (made : List String × Binds) (n : ℕ) (key : Value)
      → key_targets C table 0 keys ≡ ok made
      → get_elem? keys n ≡ some key
      → Targets n key (get_elem? made.0 n) (bound ("k" <> decimal n) made.1)
  key_targets-get_elem? keys made n key h g = Targets-from keys 0 n n key made h g (omega arith)
