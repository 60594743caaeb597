-- ===== src/Op/Upsert/Conflicts.antt =====
-- What an insert-or-ignore makes of the server's errors.
use toasty_driver_surreal.Prelude.{
  String, List, [], ◌∷◌, Option, none, some, ◌≡◌, refl, ap, is_some, Bool, Bool-cases, true, false,
  if◌then◌else◌, arith, ◌<>◌, ◌⊎◌, inl, inr, ◌∙◌,
}
use toasty_driver_surreal.Text.{contains}
use toasty_driver_surreal.Error.{
  Error, Result, ok, err, unsupported_feature, invalid_statement, serialization_failure,
  condition_failed, driver_operation_failed, read_only_transaction, ◌>>=◌,
}
use toasty_driver_surreal.Schema.{Column, Catalog}
use toasty_driver_surreal.Value.{Value, SurValue, Array, Object}
use toasty_driver_surreal.Value.Codec.{Codec}
use toasty_driver_surreal.RecordId.{RecordId, to_value}
use toasty_driver_surreal.Conn.Sdk.{Failure, done, failed, Sdk}
use toasty_driver_surreal.Conn.Failures.{classify_error}
use toasty_driver_surreal.Conn.Session.{Connection, ask, run_query, response, checked, take_rows}
use toasty_driver_surreal.Op.{ExecResponse, value_stream, row_to_record, rows_to_records}
use toasty_driver_surreal.Expr.{Binds}
use toasty_driver_surreal.Op.Insert.{create_text, create_binds}
use toasty_driver_surreal.Op.Write.{Row, Source}
use toasty_driver_surreal.Op.Write.Assign.{Assignment}
use toasty_driver_surreal.Op.Upsert.{
  Upsert, UpsertClause, UpsertAction, prepare_row, targets_primary_key, nothing_created,
  is_conflict, ignore_conflict, finished_rows, finish, at_least_one, act, upsert_source,
  upsert_clause, exec_upsert,
}

abbrev pub message : Error → String
message (unsupported_feature m) = m
message (invalid_statement m) = m
message (serialization_failure m) = m
message (condition_failed m) = m
message (driver_operation_failed m) = m
message (read_only_transaction m) = m

-- The texts of errors say that something already exists when their messages do.
abbrev pub Shows : (Error → String) → Type 0
Shows display =
    (e : Error) → contains (display e) "already exists" ≡ contains (message e) "already exists"

message-classify_error : (failure : Failure) → message (classify_error failure) ≡ failure.message
unfolding classify_error
message-classify_error failure = ground arith

-- what the server makes of a statement: a failure of the query or one that its response holds, or
-- a response with the row that was created
pub data Reply : Type 0 where
  refused : Failure → Reply
  created : Object → Reply

module _ {S T R : Type 0} (sdk : Sdk S T R) where
  abbrev pub Answers : Option T → String × Binds → S → Reply → S → Type 0
  Answers t (sql, binds) s (Reply.refused failure) after =
      (response sdk t sql binds s ≡ (failed failure, after))
      ⊎ ((r : R) × (response sdk t sql binds s ≡ (done r, after)) × (sdk.check r ≡ failed failure))
  Answers t (sql, binds) s (Reply.created row) after =
      (r : R) × (passed : R) × (response sdk t sql binds s ≡ (done r, after))
      × (sdk.check r ≡ done passed)
      × (sdk.take passed 0 ≡ done (SurValue.array (Array.cons (SurValue.object row) Array.nil)))

-- the creation of one record
abbrev pub creation : Bool → RecordId → Object → String × Binds
creation returns rid content = (
  "CREATE $rid CONTENT $data" <> (if returns then " RETURN AFTER" else ""),
  ("rid", to_value rid) ∷ ("data", SurValue.object content) ∷ [],
)

module _ (C : Codec) (lookup : Object → String → Option SurValue) where
  -- none created, or one, as a number or as the records
  abbrev pub reported : Option (List Column) → Reply → Result ExecResponse
  reported returning (Reply.refused failure) = elim (contains failure.message "already exists") [
    | false ↦ err (classify_error failure)
    | true ↦ elim returning [
      | none ↦ ok (ExecResponse.count 0)
      | some columns ↦ ok (value_stream [])
    ]
  ]
  reported none (Reply.created row) = ok (ExecResponse.count 1)
  reported (some columns) (Reply.created row) = do
    record_value ← row_to_record C lookup (SurValue.object row) columns
    ok (value_stream (record_value ∷ []))

module _ (C : Codec) (debug_assignment : Assignment → String) (catalog : Catalog)
    (lookup : Object → String → Option SurValue) {S T R : Type 0} (sdk : Sdk S T R)
    (display : Error → String) (shows : Shows display) where
  ignored :
      (returning : Option (List Column)) (failure : Failure)
      → ignore_conflict C debug_assignment catalog lookup sdk display returning
          (err (classify_error failure))
        ≡ (if contains failure.message "already exists"
            then ok (nothing_created C debug_assignment catalog lookup returning)
            else err (classify_error failure))
  unfolding ignore_conflict is_conflict
  ignored returning failure =
      rw (shows (classify_error failure), message-classify_error failure) refl

  chosen :
      (failure : Failure) (ignoring failing : Result ExecResponse)
      → (if contains failure.message "already exists" then ignoring else failing)
        ≡ elim (contains failure.message "already exists") [ false ↦ failing | true ↦ ignoring ]
  chosen failure ignoring failing = elim (Bool-cases (contains failure.message "already exists")) [
    | inl e ↦ rw e refl
    | inr e ↦ rw e refl
  ]

  abbrev outcome_of : Option (List Column) → Result R → Result ExecResponse
  outcome_of returning response =
      ignore_conflict C debug_assignment catalog lookup sdk display returning response

  ignored-reported :
      (returning : Option (List Column)) (failure : Failure)
      → outcome_of returning (err (classify_error failure))
        ≡ reported C lookup returning (Reply.refused failure)
  unfolding nothing_created
  ignored-reported none failure = ignored none failure ∙ chosen failure _ _
  ignored-reported (some columns) failure = ignored (some columns) failure ∙ chosen failure _ _

  one_decoded :
      (columns : List Column) (decoded : Result Value)
      → ((decoded >>= λ v. ok [] >>= λ rest. ok (v ∷ rest)) >>= λ vs. ok (value_stream vs))
        ≡ (decoded >>= λ v. ok (value_stream (v ∷ [])))
  one_decoded columns (ok v) = refl
  one_decoded columns (err e) = refl

  creation-create_text :
      (returns : Bool) (rid : RecordId) (content : Object)
      → ◌≡◌ {A = String × Binds}
          (create_text returns, create_binds (to_value rid, content))
          (creation returns rid content)
  creation-create_text true rid content = refl
  creation-create_text false rid content = refl

  pair_path : {A : Type 0} {x y : A} {s t : S} → x ≡ y → s ≡ t → ◌≡◌ {A = A × S} (x, s) (y, t)
  pair_path p q = rw (p, q) refl

  reply_reported :
      (t : Option T) (returning : Option (List Column)) (asked : String × Binds) (s after : S)
      (reply : Reply)
      → Answers sdk t asked s reply after
      → (outcome_of returning (checked sdk classify_error (response sdk t asked.0 asked.1 s).0)
          ≡ reported C lookup returning reply)
        × ((response sdk t asked.0 asked.1 s).1 ≡ after)
  unfolding checked ignore_conflict finished_rows take_rows finish rows_to_records at_least_one
  reply_reported t returning asked s after (Reply.refused failure) (inl q) =
      rw q (ignored-reported returning failure, refl)
  reply_reported t returning asked s after (Reply.refused failure) (inr (r, q, c)) =
      rw (q, c) (ignored-reported returning failure, refl)
  reply_reported t none asked s after (Reply.created row) (r, passed, q, c, k) =
      rw (q, c, k) (refl, refl)
  reply_reported t (some columns) asked s after (Reply.created row) (r, passed, q, c, k) =
      rw (q, c, k)
        (one_decoded columns (row_to_record C lookup (SurValue.object row) columns), refl)

  -- An insert-or-ignore of one row on the columns of the primary key, in a transaction or outside,
  -- asks for one `CREATE` of the row's record. When the server creates it, one is reported, as a
  -- number or as the record that is decoded from the row. When the server refuses, by a failure of
  -- the query or of its response, nothing is reported to be created, 0 or no records, exactly when
  -- the failure says that something already exists, and the classified error otherwise. The
  -- connection is as it was but for the server. The texts of errors say that something already exists
  -- when their messages do.
  pub exec_upsert-ignore :
      (conn : Connection S T) (op : Upsert) (clause : UpsertClause) (row : Row) (rid : RecordId)
      (content : Object) (returning : Option (List Column)) (reply : Reply) (after : S)
      → op.clause ≡ some clause
      → clause.action ≡ UpsertAction.ignore
      → op.stmt.source ≡ Source.values (row ∷ [])
      → targets_primary_key C debug_assignment catalog lookup sdk display op.stmt.table
          clause.target
        ≡ ok tt
      → prepare_row C debug_assignment catalog lookup sdk display op.stmt row
        ≡ ok (rid, content, returning)
      → Answers sdk conn.transaction
          (creation (is_some returning) rid content)
          conn.server
          reply
          after
      → exec_upsert C debug_assignment catalog lookup sdk display conn op
        ≡ (reported C lookup returning reply, record conn { server = after })
  unfolding exec_upsert upsert_clause upsert_source act ask run_query
  exec_upsert-ignore conn op clause row rid content returning reply after c a s t p answered =
      let asked = creation (is_some returning) rid content in
      let (report, kept) =
        reply_reported conn.transaction returning asked conn.server after reply answered in
      rw (c, t, s, p, a)
        (ap (λ made. ask sdk conn made (outcome_of returning))
            (creation-create_text (is_some returning) rid content)
          ∙ ap (λ (x : Result ExecResponse × S). (x.0, record conn { server = x.1 }))
              (pair_path report kept))
