-- ===== src/Op/Store/Creates.antt =====
-- What an insert of one row that succeeds has asked of the server.
use toasty_driver_surreal.Prelude.{
  ℕ, String, Bool, List, [], ◌∷◌, ◌||◌, is_some, Option, ◌≡◌, refl, ap, sym, ◌∙◌, subst,
}
use toasty_driver_surreal.Error.{Result, ok, err, >>=-eq-ok}
use toasty_driver_surreal.Schema.{Column}
use toasty_driver_surreal.Value.{Value, SurValue, Object}
use toasty_driver_surreal.Value.Codec.{Codec}
use toasty_driver_surreal.Conn.Sdk.{done, Sdk}
use toasty_driver_surreal.Conn.Failures.{classify_error}
use toasty_driver_surreal.Conn.Session.{Connection, attempt, response, checked, run_query, ask}
use toasty_driver_surreal.Conn.Session.Passed.{checked-done}
use toasty_driver_surreal.Op.{ExecResponse}
use toasty_driver_surreal.Op.Write.{Row, Source}
use toasty_driver_surreal.Op.Insert.{
  Insert, build_row, create_text, create_binds, create_row, tallied, insert_rows, insert_all,
  response_records, insert_source, exec_insert,
}

module _ (C : Codec) (lookup : Object → String → Option SurValue) {S T R : Type 0}
    (sdk : Sdk S T R) where
  -- one `CREATE`
  abbrev pub Creates : Connection S T → Bool → SurValue × Object → Connection S T → Type 0
  Creates conn want b after =
      (r : R) × ((passed : R) × ((server : S) × (response sdk conn.transaction (create_text want)
              (create_binds b) conn.server
            ≡ (done r, server))
          × (sdk.check r ≡ done passed)
          × (after ≡ record conn { server = server })))

  create_row-Creates :
      (conn : Connection S T) (want : Bool) (returning : Option (List Column))
      (built : Result (SurValue × Object)) (more : List Value)
      → (create_row C lookup sdk conn want returning built).0 ≡ ok more
      → (b : SurValue × Object) × (built ≡ ok b)
        × Creates conn want b (create_row C lookup sdk conn want returning built).1
  unfolding create_row ask run_query response_records
  create_row-Creates conn want returning (err e) more h = cc
  create_row-Creates conn want returning (ok b) more h =
      let asked = response sdk conn.transaction (create_text want) (create_binds b) conn.server in
      let (passed, p, rest) = >>=-eq-ok (checked sdk classify_error asked.0) _ h in
      let (r, e, c) = checked-done sdk classify_error asked.0 passed p in
      (b, refl, (r, (passed, (asked.1, ap (λ a. (a, asked.1)) e, c, refl))))

  insert_rows-end :
      (insert : Insert) (want : Bool) (returning : Option (List Column))
      (tally : Result (ℕ × List Value)) (conn : Connection S T)
      → insert_rows C lookup sdk insert want returning [] (tally, conn) ≡ (tally, conn)
  unfolding insert_rows
  insert_rows-end insert want returning (err e) conn = refl
  insert_rows-end insert want returning (ok tally) conn = refl

  insert_rows-Creates :
      (insert : Insert) (want : Bool) (returning : Option (List Column)) (row : Row)
      (tally : ℕ × List Value) (conn : Connection S T) (out : ℕ × List Value)
      → (insert_rows C lookup sdk insert want returning (row ∷ []) (ok tally, conn)).0 ≡ ok out
      → (b : SurValue × Object) × (build_row C insert row ≡ ok b)
        × Creates conn want b
            (insert_rows C lookup sdk insert want returning (row ∷ []) (ok tally, conn)).1
  unfolding insert_rows tallied
  insert_rows-Creates insert want returning row tally conn out h =
      let made = create_row C lookup sdk conn want returning (build_row C insert row) in
      let last = insert_rows-end insert want returning (tallied C lookup sdk tally made.0) made.1 in
      let (more, p, q) =
        >>=-eq-ok made.0 _
          (sym (ap (λ (x : Result (ℕ × List Value) × Connection S T). x.0) last) ∙ h) in
      let (b, e, c) = create_row-Creates conn want returning (build_row C insert row) more p in
      (
        b,
        e,
        subst (Creates conn want b)
            (sym (ap (λ (x : Result (ℕ × List Value) × Connection S T). x.1) last)) c,
      )

  -- the row has been built and created
  abbrev pub CreatesRow : Connection S T → Insert → Row → Connection S T → Type 0
  CreatesRow conn insert row after =
      (want : Bool) × ((b : SurValue × Object) × (build_row C insert row ≡ ok b)
        × Creates conn want b after)

  attempt-CreatesRow :
      (conn : Connection S T) (insert : Insert) (ret : Bool) (row : Row) (reply : ExecResponse)
      (returning : Result (Option (List Column)))
      → (attempt conn returning (insert_all C lookup sdk conn insert ret (row ∷ []))).0 ≡ ok reply
      → CreatesRow conn insert row
          (attempt conn returning (insert_all C lookup sdk conn insert ret (row ∷ []))).1
  unfolding insert_all
  attempt-CreatesRow conn insert ret row reply (err e) h = cc
  attempt-CreatesRow conn insert ret row reply (ok returning) h =
      let want = is_some returning || ret in
      let made = insert_rows C lookup sdk insert want returning (row ∷ []) (ok (0, []), conn) in
      let (out, p, q) = >>=-eq-ok made.0 _ h in
      (want, insert_rows-Creates insert want returning row (0, []) conn out p)

  pub exec_insert-CreatesRow :
      (conn : Connection S T) (insert : Insert) (ret : Bool) (row : Row) (reply : ExecResponse)
      → insert.source ≡ Source.values (row ∷ [])
      → (exec_insert C lookup sdk conn insert ret).0 ≡ ok reply
      → CreatesRow conn insert row (exec_insert C lookup sdk conn insert ret).1
  unfolding exec_insert insert_source
  exec_insert-CreatesRow conn insert ret row reply s h =
      let one = ap (insert_source C lookup sdk conn insert ret) s in
      subst (λ (x : Result ExecResponse × Connection S T). CreatesRow conn insert row x.1) (sym one)
        (attempt-CreatesRow conn insert ret row reply _
          (sym (ap (λ (x : Result ExecResponse × Connection S T). x.0) one) ∙ h))
