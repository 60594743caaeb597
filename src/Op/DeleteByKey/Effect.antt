-- ===== src/Op/DeleteByKey/Effect.antt =====
-- `exec_delete_by_key` at a server that keeps records: `DELETE` with a clause removes the record that
-- it names when the clause holds of it.
use text.Mathlib.TextLemmas.{append-nil}
use mathlib.Core.List.{append-nil as nil_behind}
use toasty_driver_surreal.Text.{join}
use toasty_driver_surreal.Schema.{Table}
use toasty_driver_surreal.Expr.Render.{render}
use toasty_driver_surreal.Prelude.{
  ℕ, String, ◌<>◌, Bool, true, false, List, [], ◌∷◌, Option, none, some, ◌≡◌, ◌≢◌, refl, ap, ◌∙◌,
  length, is_some, is_empty, ◌&&◌, map, length-map, arith, ◌++◌, sym, All,
}
use toasty_driver_surreal.Error.{Result, ok, err, condition_failed, >>=-eq-ok, ◌>>=◌}
use toasty_driver_surreal.Value.{Value, SurValue, Object}
use toasty_driver_surreal.Value.Codec.{Codec}
use toasty_driver_surreal.RecordId.{RecordId, record_id, to_value}
use toasty_driver_surreal.Expr.{Expr, ExprContext, Binds, push_named}
use toasty_driver_surreal.Expr.Fragment.Numbering.{bound}
use toasty_driver_surreal.Conn.Sdk.{done, Sdk}
use toasty_driver_surreal.Conn.Session.{Connection, response, run_query, ask, take_rows}
use toasty_driver_surreal.Conn.Failures.{classify_error}
use toasty_driver_surreal.Conn.Session.Passed.{checked-done}
use toasty_driver_surreal.Op.{ExecResponse, where_clause}
use toasty_driver_surreal.Op.DeleteByKey.{
  DeleteByKey, add_predicate, delete_statement, deleted_count, count_or_fail, delete_keys,
  exec_delete_by_key,
}
use toasty_driver_surreal.Op.DeleteByKey.Target.{add_predicate-IsNumbered}
use toasty_driver_surreal.Expr.Fragment.Named.{nothing-IsNumbered, bound-rid}
use toasty_driver_surreal.Op.QueryPk.Found.{rows_array, elements-rows_array}

-- A server seen as the records it keeps, with what the text of a predicate says of a record under
-- some binds. A text that is an operand stands between the `AND`s of a clause as one predicate.
pub record Records (S : Type 0) : Type 0 where
  pub find : S → RecordId → Option Object
  pub holds : String → Binds → RecordId → Object → Bool
  pub is_operand : String → Bool

-- the clause of some predicates
abbrev behind_and : List String → String
behind_and [] = ""
behind_and (p ∷ ps) = " AND " <> (p <> behind_and ps)

abbrev pub clause_of : List String → String
clause_of [] = ""
clause_of (p ∷ ps) = " WHERE " <> (p <> behind_and ps)

-- every predicate holds
abbrev pub all_hold : (String → Bool) → List String → Bool
all_hold holds [] = true
all_hold holds (p ∷ ps) = holds p && all_hold holds ps

-- The texts of the predicates of a deletion, those of its filter and of its condition, as they are
-- rendered behind one another.
abbrev pub text_of :
    Codec → ExprContext → Table → Option Expr → Binds → Result (List String × Binds)
text_of C cx table none binds = ok ([], binds)
text_of C cx table (some e) binds = do
  (text, after) ← render C cx table e binds
  ok (text ∷ [], after)

abbrev pub predicates : Codec → ExprContext → DeleteByKey → Result (List String × Binds)
predicates C cx op = do
  (filter_texts, filtered) ← text_of C cx op.table op.filter []
  (condition_texts, binds) ← text_of C cx op.table op.condition filtered
  ok (filter_texts ++ condition_texts, binds)

-- the record is there and the predicates hold of it
abbrev pub hit : (RecordId → Object → Bool) → RecordId → Option Object → Bool
hit holds id none = false
hit holds id (some content) = holds id content

abbrev pub remaining : Bool → Option Object → Option Object
remaining true found = none
remaining false found = found

abbrev pub removed_rows : Bool → ℕ
removed_rows true = 1
removed_rows false = 0

-- what a deletion answers, under a condition or not
abbrev pub outcome : Bool → Bool → Result ExecResponse
outcome true false = err (condition_failed "SurrealDB delete condition did not match")
outcome under_condition deleted = ok (ExecResponse.count (removed_rows deleted))

abbrev delete_text : String → String
delete_text clause = "DELETE $rid" <> clause <> " RETURN BEFORE"

-- the code's clause
join-behind_and : (p : String) (ps : List String) → join " AND " (p ∷ ps) ≡ p <> behind_and ps
unfolding join
join-behind_and p [] = sym (append-nil p)
join-behind_and p (q ∷ ps) = ap (λ rest. p <> (" AND " <> rest)) (join-behind_and q ps)

where_clause-clause_of : (ps : List String) → where_clause ps ≡ clause_of ps
unfolding where_clause
where_clause-clause_of [] = refl
where_clause-clause_of (p ∷ ps) = ap (λ rest. " WHERE " <> rest) (join-behind_and p ps)

module _ (C : Codec) (cx : ExprContext) where
  abbrev as_list : String × Binds → Result (List String × Binds)
  as_list (text, after) = ok (text ∷ [], after)

  abbrev put_behind : List String → List String × Binds → Result (List String × Binds)
  put_behind before (texts, after) = ok (before ++ texts, after)

  one_text :
      (before : List String) (made : Result (String × Binds))
      → (made >>= λ made. put_behind before (made.0 ∷ [], made.1))
        ≡ ((made >>= as_list) >>= put_behind before)
  one_text before (ok made) = refl
  one_text before (err e) = refl

  add_predicate-text_of :
      (table : Table) (o : Option Expr) (before : List String) (binds : Binds)
      → add_predicate C cx table o (before, binds)
        ≡ (text_of C cx table o binds >>= put_behind before)
  unfolding add_predicate
  add_predicate-text_of table none before binds =
      ap (λ texts. ok (texts, binds)) (sym (nil_behind before))
  add_predicate-text_of table (some e) before binds = one_text before (render C cx table e binds)

  -- the code's two steps
  abbrev both : DeleteByKey → Result (List String × Binds)
  both op = add_predicate C cx op.table op.filter ([], []) >>= λ filtered.
      add_predicate C cx op.table op.condition filtered

  second_behind :
      (op : DeleteByKey) (first : Result (List String × Binds))
      → ((first >>= put_behind []) >>= λ filtered.
          add_predicate C cx op.table op.condition filtered)
        ≡ (first >>= λ (filter_texts, filtered).
            text_of C cx op.table op.condition filtered >>= put_behind filter_texts)
  second_behind op (ok (texts, after)) = add_predicate-text_of op.table op.condition texts after
  second_behind op (err e) = refl

  both-predicates : (op : DeleteByKey) → both op ≡ predicates C cx op
  both-predicates op =
      ap (λ made. made >>= λ filtered. add_predicate C cx op.table op.condition filtered)
        (add_predicate-text_of op.table op.filter [] [])
      ∙ second_behind op (text_of C cx op.table op.filter [])

  predicates-rid :
      (op : DeleteByKey) (texts : List String) (before : Binds) (id : RecordId)
      → predicates C cx op ≡ ok (texts, before)
      → bound "rid" (push_named before "rid" (to_value id)) ≡ some (to_value id)
  predicates-rid op texts before id h =
      let (filtered, p, q) =
        >>=-eq-ok (add_predicate C cx op.table op.filter ([], [])) _ (both-predicates op ∙ h) in
      bound-rid before (to_value id) (
        add_predicate-IsNumbered C cx op.table op.condition filtered (texts, before)
          (add_predicate-IsNumbered C cx op.table op.filter ([], []) filtered nothing-IsNumbered p)
          q)

  delete_statement-predicates :
      (op : DeleteByKey) (key : Value) (texts : List String) (before : Binds) (id : RecordId)
      → predicates C cx op ≡ ok (texts, before)
      → record_id C op.table key ≡ ok id
      → delete_statement C cx op key
        ≡ ok (delete_text (clause_of texts), push_named before "rid" (to_value id))
  unfolding delete_statement
  delete_statement-predicates op key texts before id h made =
      let (filtered, p, q) =
        >>=-eq-ok (add_predicate C cx op.table op.filter ([], [])) _ (both-predicates op ∙ h) in
      rw (p, q, made, where_clause-clause_of texts) refl

module _ {S T R : Type 0} (sdk : Sdk S T R) (M : Records S) where
  -- whether a deletion with these predicates removes the record
  abbrev pub gone : S → List String → Binds → RecordId → Bool
  gone s texts binds id =
      hit (λ id content. all_hold (λ p. M.holds p binds id content) texts) id (M.find s id)

  -- A `DELETE` that succeeds removes the record that `$rid` is bound to, when each of the predicates
  -- of its clause holds of it, and no other, and answers the records that were removed.
  pub record IsErasing (t : Option T) : Type 0 where
    pub deleted :
        (s after : S) (r passed : R) (texts : List String) (binds : Binds) (id : RecordId)
        → All (λ text. M.is_operand text ≡ true) texts
        → bound "rid" binds ≡ some (to_value id)
        → response sdk t ("DELETE $rid" <> clause_of texts <> " RETURN BEFORE") binds s
          ≡ (done r, after)
        → sdk.check r ≡ done passed
        → (rows : List Object) × (sdk.take passed 0 ≡ done (SurValue.array (rows_array rows)))
          × (length rows ≡ removed_rows (gone s texts binds id))
          × (M.find after id ≡ remaining (gone s texts binds id) (M.find s id))
          × ((other : RecordId) → other ≢ id → M.find after other ≡ M.find s other)

  module _ (C : Codec) (cx : ExprContext) where
    count_or_fail-outcome :
        (rows : List SurValue) (deleted under_condition : Bool)
        → length rows ≡ removed_rows deleted
        → count_or_fail C cx sdk (is_empty rows && under_condition) rows
          ≡ outcome under_condition deleted
    unfolding count_or_fail
    count_or_fail-outcome [] true under_condition h = absurd (omega arith)
    count_or_fail-outcome [] false true h = refl
    count_or_fail-outcome [] false false h = refl
    count_or_fail-outcome (row ∷ rows) true true h = rw h refl
    count_or_fail-outcome (row ∷ rows) true false h = rw h refl
    count_or_fail-outcome (row ∷ rows) false under_condition h = absurd (omega arith)

    -- The operation's answer and the server after it, by what the predicates say of the record.
    abbrev pub Deletes :
        Connection S T
        → DeleteByKey
        → List String
        → Binds
        → RecordId
        → Result ExecResponse × Connection S T
        → Type 0
    Deletes conn op texts binds id done_by =
        (done_by.0 ≡ outcome (is_some op.condition) (gone conn.server texts binds id))
        × (M.find done_by.1.server id
            ≡ remaining (gone conn.server texts binds id) (M.find conn.server id))
        × ((other : RecordId)
            → other ≢ id
            → M.find done_by.1.server other ≡ M.find conn.server other)
        × (done_by.1 ≡ record conn { server = done_by.1.server })

    -- the answer to the statement
    deleted_count-outcome :
        (op : DeleteByKey) (passed : R) (rows : List Object) (deleted : Bool)
        → sdk.take passed 0 ≡ done (SurValue.array (rows_array rows))
        → length rows ≡ removed_rows deleted
        → deleted_count C cx sdk op (ok passed) ≡ outcome (is_some op.condition) deleted
    unfolding deleted_count take_rows
    deleted_count-outcome op passed rows deleted taken n =
        rw (taken, elements-rows_array rows)
          (count_or_fail-outcome (map SurValue.object rows) deleted (is_some op.condition)
            (length-map SurValue.object rows ∙ n))

    -- A deletion by one key, whose statement the server runs, is a compare-and-delete of the record of
    -- that key: the record is gone when the rendered filter and the rendered condition, of those that
    -- there are, both hold of it, and is what it was otherwise; every other record stays; and the
    -- answer is the number of records that were deleted, or `condition_failed` when there is a
    -- condition and nothing was deleted. The server is one on which a `DELETE` removes the record that
    -- `$rid` names when each predicate behind `WHERE`, with `AND` between them, holds of it, and the
    -- rendered predicates are operands of `AND`.
    pub exec_delete_by_key-Deletes :
        (conn : Connection S T) (op : DeleteByKey) (key : Value) (texts : List String)
        (before : Binds) (id : RecordId) (passed : R)
        → IsErasing conn.transaction
        → op.keys ≡ key ∷ []
        → predicates C cx op ≡ ok (texts, before)
        → All (λ text. M.is_operand text ≡ true) texts
        → record_id C op.table key ≡ ok id
        → (run_query sdk conn
            ("DELETE $rid" <> clause_of texts <> " RETURN BEFORE")
            (push_named before "rid" (to_value id))).0
          ≡ ok passed
        → Deletes conn op texts
            (push_named before "rid" (to_value id))
            id
            (exec_delete_by_key C cx sdk conn op)
    unfolding exec_delete_by_key delete_keys ask run_query
    exec_delete_by_key-Deletes conn op key texts before id passed L one made operands keyed ran =
        let binds = push_named before "rid" (to_value id) in
        let asked =
          response sdk conn.transaction (delete_text (clause_of texts)) binds conn.server in
        let (r, answered, check) = checked-done sdk classify_error asked.0 passed ran in
        let (rows, taken, n, left, others) =
          L.deleted conn.server asked.1 r passed texts binds id operands
            (predicates-rid C cx op texts before id made) (ap (λ a. (a, asked.1)) answered) check in
        rw (one, delete_statement-predicates C cx op key texts before id made keyed, ran)
          (
            deleted_count-outcome op passed rows (gone conn.server texts binds id) taken n,
            left,
            others,
            refl,
          )
