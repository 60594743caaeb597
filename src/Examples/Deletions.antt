-- ===== src/Examples/Deletions.antt =====
-- The theorem on deletions at a server that keeps one record, the user 41, and reads every predicate
-- as `record::id(id) != $p0`.
use Prim.Native.Char.{code}
use text.Mathlib.TextLemmas.{append_cancel_left, append_cancel_right, cons-append}
use toasty_driver_surreal.Prelude.{
  arith, ◌<>◌, ℕ, ◌≢◌, String, Bool, true, false, not, ◌&&◌, pos, List, [], ◌∷◌, Option, none, some,
  ◌≡◌, refl, ap, sym, ◌∙◌, str_eq, eq_iff, ◌==◌, ==_iff, Bool-cases, inl, inr, length, subst,
  if◌then◌else◌,
}
use toasty_driver_surreal.Error.{ok}
use toasty_driver_surreal.Value.{Value, Number, SurValue, RecordIdKey, Object}
use toasty_driver_surreal.Value.Encode.{to_surreal}
use toasty_driver_surreal.Text.{join, decimal}
use toasty_driver_surreal.RecordId.{RecordId, record_id, to_value}
use toasty_driver_surreal.Expr.{BinaryOp, Expr, Binds, column_ref, push_named}
use toasty_driver_surreal.Expr.Fragment.Numbering.{bound}
use toasty_driver_surreal.Conn.Sdk.{Answer, done, Sdk}
use toasty_driver_surreal.Conn.Session.{Connection, response, run_query}
use toasty_driver_surreal.Expr.Render.{render}
use toasty_driver_surreal.Op.DeleteByKey.{DeleteByKey, exec_delete_by_key}
use toasty_driver_surreal.Op.DeleteByKey.Effect.{
  Records, IsErasing, Deletes, hit, remaining, removed_rows, predicates, clause_of, all_hold,
  exec_delete_by_key-Deletes,
}
use toasty_driver_surreal.Op.QueryPk.Found.{rows_array}
use toasty_driver_surreal.Examples.Samples.{codec, context, users}

abbrev user_41 : RecordId
user_41 = record { table = "users"; key = RecordIdKey.key_number (pos 41) }

abbrev key_is_41 : RecordIdKey → Bool
key_is_41 (RecordIdKey.key_number (pos n)) = n == 41
key_is_41 _ = false

abbrev is_user_41 : RecordId → Bool
is_user_41 rid = str_eq rid.table "users" && key_is_41 rid.key

key_is_41_sound : (key : RecordIdKey) → key_is_41 key ≡ true → key ≡ RecordIdKey.key_number (pos 41)
key_is_41_sound (RecordIdKey.key_number (pos n)) h =
    ap (λ k. RecordIdKey.key_number (pos k)) ((==_iff n 41).0 h)
key_is_41_sound _ h = cc

is_user_41_sound : (rid : RecordId) → is_user_41 rid ≡ true → rid ≡ user_41
is_user_41_sound rid h = elim (Bool-cases (str_eq rid.table "users")) [
  | inl t ↦
      ap (λ table. record { table = table; key = rid.key }) ((eq_iff rid.table "users").0 t)
      ∙ ap (λ key. record { table = "users"; key = key }) (key_is_41_sound rid.key (rw t at h))
  | inr t ↦ let h_false : false ≡ true = rw t at h in cc
]

-- the record, if it is there
abbrev found : Bool → Bool → Option Object
found true true = some Object.end
found _ _ = none

-- `record::id(id) != $p0`
abbrev differs : Option SurValue → Bool
differs (some (SurValue.number (Number.int (pos n)))) = not (n == 41)
differs _ = true

abbrev records : Records Bool
records = record {
  find = λ s rid. found (is_user_41 rid) s;
  holds = λ text binds rid content. differs (bound "p0" binds);
  is_operand = λ text. true;
}

abbrev named : Option SurValue → Bool
named (some (SurValue.record_id table key)) = is_user_41 (record { table = table; key = key })
named _ = false

abbrev plain : String
plain = "DELETE $rid RETURN BEFORE"

-- what the clause of a statement says of the record
abbrev says : String → Bool → Bool
says sql d = if str_eq sql plain then true else d

abbrev goes : Bool → Option SurValue → Bool → Bool
goes d rid s = named rid && s && d

abbrev erase : String → Binds → Bool → Answer Bool × Bool
erase sql binds s =
    let gone = goes (says sql (differs (bound "p0" binds))) (bound "rid" binds) s in
    (done gone, if gone then false else s)

abbrev one_user : Sdk Bool ℕ Bool
one_user = record {
  query = λ sql binds s. erase sql binds s;
  query_in = λ t sql binds s. erase sql binds s;
  begin = λ s. (done 1, s);
  commit = λ t s. (done tt, s);
  cancel = λ t s. (done tt, s);
  check = λ r. done r;
  take = λ r index. done (SurValue.array (rows_array (if r then Object.end ∷ [] else [])));
  parse_u64 = λ s. none;
}

abbrev value : Answer Bool → Bool
value (done b) = b
value _ = false

-- what the law says of a deletion
abbrev Erased : RecordId → Bool → Bool → Bool × Bool → Type 0
Erased id d s (r, after) =
    let gone = hit (λ id content. d) id (found (is_user_41 id) s) in
    (rows : List Object) × (one_user.take r 0 ≡ done (SurValue.array (rows_array rows)))
    × (length rows ≡ removed_rows gone)
    × (found (is_user_41 id) after ≡ remaining gone (found (is_user_41 id) s))
    × ((other : RecordId)
        → other ≢ id
        → found (is_user_41 other) after ≡ found (is_user_41 other) s)

others_kept :
    (x y s d : Bool)
    → (x ≡ true → y ≡ true → ⊥)
    → found y (if x && s && d then false else s) ≡ found y s
others_kept x false s d apart = refl
others_kept false true s d apart = refl
others_kept true true s d apart = absurd (apart refl refl)

same_user : (id other : RecordId) → other ≢ id → is_user_41 id ≡ true → is_user_41 other ≡ true → ⊥
same_user id other apart x y = apart (is_user_41_sound other y ∙ sym (is_user_41_sound id x))

erased_rows :
    (id : RecordId) (x s d : Bool)
    → (rows : List Object) × (one_user.take (x && s && d) 0
        ≡ done (SurValue.array (rows_array rows)))
      × (length rows ≡ removed_rows (hit (λ id content. d) id (found x s)))
      × (found x (if x && s && d then false else s)
          ≡ remaining (hit (λ id content. d) id (found x s)) (found x s))
erased_rows id false s d = ([], refl, refl, refl)
erased_rows id true false d = ([], refl, refl, refl)
erased_rows id true true false = ([], refl, refl, refl)
erased_rows id true true true = (Object.end ∷ [], refl, refl, refl)

erase-Erased :
    (id : RecordId) (d s : Bool)
    → Erased id d s (is_user_41 id && s && d, if is_user_41 id && s && d then false else s)
erase-Erased id d s =
    let (rows, taken, n, left) = erased_rows id (is_user_41 id) s d in
    (
      rows,
      taken,
      n,
      left,
      λ other apart. others_kept (is_user_41 id) (is_user_41 other) s d (same_user id other apart),
    )

first_code : String → ℕ
first_code String.[] = 0
first_code (String.◌∷◌ c s) = code c

-- a statement with a predicate is not the plain one
not_plain : (rest : String) → "DELETE $rid" <> ((" WHERE " <> rest) <> " RETURN BEFORE") ≡ plain → ⊥
unfolding first_code
not_plain rest e =
    let clause : " WHERE " <> rest ≡ "" =
      append_cancel_right (" WHERE " <> rest) "" " RETURN BEFORE" (
        append_cancel_left "DELETE $rid" ((" WHERE " <> rest) <> " RETURN BEFORE") " RETURN BEFORE"
          e) in
    let space : first_code (" WHERE " <> rest) ≡ 32 = rw cons-append refl in
    let nothing : first_code (" WHERE " <> rest) ≡ 0 = ap first_code clause in absurd (omega arith)

all_hold-same :
    (d : Bool) (text : String) (texts : List String) → all_hold (λ p. d) (text ∷ texts) ≡ d
all_hold-same false text texts = refl
all_hold-same true text [] = refl
all_hold-same true text (next ∷ texts) = all_hold-same true next texts

says-all_hold :
    (d : Bool) (texts : List String)
    → says ("DELETE $rid" <> clause_of texts <> " RETURN BEFORE") d ≡ all_hold (λ p. d) texts
says-all_hold d [] = refl
says-all_hold d (text ∷ texts) =
    let sql = "DELETE $rid" <> clause_of (text ∷ texts) <> " RETURN BEFORE" in
    elim (Bool-cases (str_eq sql plain)) [
      | inl e ↦ absurd (not_plain _ ((eq_iff sql plain).0 e))
      | inr e ↦ rw e (sym (all_hold-same d text texts))
    ]

one_user-IsErasing : IsErasing one_user records none
unfolding response
one_user-IsErasing = record {
  deleted = λ s after r passed texts binds id operands rid asked checked.
      let d = all_hold (λ p. differs (bound "p0" binds)) texts in
      let sql = "DELETE $rid" <> clause_of texts <> " RETURN BEFORE" in
      let says_d : says sql (differs (bound "p0" binds)) ≡ d =
        says-all_hold (differs (bound "p0" binds)) texts in
      subst (Erased id d s)
        (ap (λ b. (goes d b s, if goes d b s then false else s)) (sym rid)
          ∙ ap
              (λ h.
                (goes h (bound "rid" binds) s, if goes h (bound "rid" binds) s then false else s))
              (sym says_d)
          ∙ ap (λ (x : Answer Bool × Bool). (value x.0, x.1)) asked
          ∙ ap (λ (x : Answer Bool). (value x, after)) checked)
        (erase-Erased id d s);
}

-- delete the user 41 if `active` differs from the literal
abbrev deletion : DeleteByKey
deletion = record {
  table = users;
  keys = Value.u64 41 ∷ [];
  filter = none;
  condition = some (Expr.binary_op BinaryOp.ne (Expr.reference 0) (Expr.value (Value.u64 7)));
}

abbrev there : Connection Bool ℕ
there = record { server = true; transaction = none; read_only = false }

abbrev predicate_binds : Binds
predicate_binds = ("p0", SurValue.number (Number.int (pos 7))) ∷ []

predicates_made :
    predicates codec context deletion ≡ ok ("record::id(id) != $p0" ∷ [], predicate_binds)
unfolding to_surreal join decimal column_ref render
predicates_made = refl

exec_delete_by_key-Deletes_example :
    Deletes one_user records codec context there deletion
      ("record::id(id) != $p0" ∷ [])
      (push_named predicate_binds "rid" (to_value user_41))
      user_41
      (exec_delete_by_key codec context one_user there deletion)
unfolding record_id run_query bound push_named
exec_delete_by_key-Deletes_example =
    exec_delete_by_key-Deletes one_user records codec context there deletion (Value.u64 41)
      ("record::id(id) != $p0" ∷ []) predicate_binds user_41 true one_user-IsErasing refl
      predicates_made (refl, tt) refl refl
