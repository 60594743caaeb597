-- ===== src/Op/Insert/Tally.antt =====
-- What an insert of many rows asks of the server, and what it answers.
use toasty_driver_surreal.Prelude.{
  ℕ, suc, ◌+◌, String, Bool, true, false, List, [], ◌∷◌, Option, none, ◌≡◌, refl, ap, sym, ◌∙◌,
  length, arith,
}
use toasty_driver_surreal.Error.{Result, ok, err, ◌>>=◌, >>=-eq-ok, ok-injective}
use toasty_driver_surreal.Schema.{Column}
use toasty_driver_surreal.Value.{Value, SurValue, Object}
use toasty_driver_surreal.Value.Codec.{Codec}
use toasty_driver_surreal.Expr.{Binds}
use toasty_driver_surreal.Conn.Sdk.{Sdk}
use toasty_driver_surreal.Conn.Session.{Connection, run_query, ask}
use toasty_driver_surreal.Op.{ExecResponse}
use toasty_driver_surreal.Op.Write.{Row, Source, returning_columns}
use toasty_driver_surreal.Op.Insert.{
  Insert, build_row, create_row, create_text, tallied, insert_rows, insert_all, insert_response,
  insert_source, exec_insert,
}

module _ (C : Codec) (lookup : Object → String → Option SurValue) {S T R : Type 0}
    (sdk : Sdk S T R) where
  one_more :
      (tally : ℕ × List Value) (created : Result (List Value)) (done : ℕ)
      → tally.0 ≡ done
      → (next : ℕ × List Value) → tallied C lookup sdk tally created ≡ ok next
      → next.0 ≡ suc done
  unfolding tallied
  one_more tally created done e next h =
      let (more, p, q) = >>=-eq-ok created _ h in
      ap (λ (x : ℕ × List Value). x.0) (sym (ok-injective q)) ∙ ap suc e

  -- the rows before were all insert_rows-count, or a row has failed
  insert_rows-count :
      (insert : Insert) (want : Bool) (returning : Option (List Column)) (rows : List Row)
      (tally : Result (ℕ × List Value)) (conn : Connection S T) (done : ℕ) (out : ℕ × List Value)
      → ((before : ℕ × List Value) → tally ≡ ok before → before.0 ≡ done)
      → (insert_rows C lookup sdk insert want returning rows (tally, conn)).0 ≡ ok out
      → out.0 ≡ done + length rows
  unfolding insert_rows
  insert_rows-count insert want returning rows (err e) conn done out b h = cc
  insert_rows-count insert want returning [] (ok tally) conn done out b h =
      ap (λ (x : ℕ × List Value). x.0) (sym (ok-injective h)) ∙ b tally refl ∙ omega arith
  insert_rows-count insert want returning (row ∷ rows) (ok tally) conn done out b h =
      let made = create_row C lookup sdk conn want returning (build_row C insert row) in
      insert_rows-count insert want returning rows (tallied C lookup sdk tally made.0) made.1
        (suc done) out (one_more tally made.0 done (b tally refl)) h
      ∙ omega arith

  -- The record ids and the contents of all the rows.
  unfoldable pub build_all : Insert → List Row → Result (List (SurValue × Object))
  unfolding build_row
  build_all insert [] = ok []
  build_all insert (row ∷ rows) = do
    built ← build_row C insert row
    rest ← build_all insert rows
    ok (built ∷ rest)

  -- the statement that creates one record, and its binds
  abbrev pub created_by : Bool → String
  created_by true = "CREATE $rid CONTENT $data RETURN AFTER"
  created_by false = "CREATE $rid CONTENT $data"

  abbrev pub created_with : SurValue × Object → Binds
  created_with (rid, content) = ("rid", rid) ∷ ("data", SurValue.object content) ∷ []

  create_text-created_by : (want : Bool) → create_text want ≡ created_by want
  create_text-created_by true = refl
  create_text-created_by false = refl

  -- One `CREATE` after the other.
  unfoldable pub creations : Bool → Connection S T → List (SurValue × Object) → Connection S T
  unfolding run_query
  creations want conn [] = conn
  creations want conn (built ∷ rest) =
      creations want (run_query sdk conn (created_by want) (created_with built)).1 rest

  abbrev loop :
      Insert
      → Bool
      → List Row
      → Result (ℕ × List Value)
      → Connection S T
      → Result (ℕ × List Value) × Connection S T
  loop insert want rows tally conn = insert_rows C lookup sdk insert want none rows (tally, conn)

  abbrev create :
      Bool → Connection S T → Result (SurValue × Object) → Result (List Value) × Connection S T
  create want conn built = create_row C lookup sdk conn want none built

  -- a row that cannot be built ends the loop with its error
  row_built :
      (insert : Insert) (want : Bool) (rows : List Row) (tally : ℕ × List Value)
      (conn : Connection S T) (out : ℕ × List Value) (built : Result (SurValue × Object))
      → (loop insert want rows
          (tallied C lookup sdk tally (create want conn built).0)
          (create want conn built).1).0
        ≡ ok out
      → (b : SurValue × Object) × (built ≡ ok b)
  unfolding insert_rows create_row tallied
  row_built insert want rows tally conn out (err e) h = cc
  row_built insert want rows tally conn out (ok b) h = (b, refl)

  loop-creations :
      (insert : Insert) (want : Bool) (rows : List Row) (tally : Result (ℕ × List Value))
      (conn : Connection S T) (out : ℕ × List Value)
      → (loop insert want rows tally conn).0 ≡ ok out
      → (bs : List (SurValue × Object)) × (build_all insert rows ≡ ok bs)
        × ((loop insert want rows tally conn).1 ≡ creations want conn bs)
  unfolding insert_rows build_all creations create_row ask
  loop-creations insert want rows (err e) conn out h = cc
  loop-creations insert want [] (ok tally) conn out h = ([], refl, refl)
  loop-creations insert want (row ∷ rows) (ok tally) conn out h =
      let built = build_row C insert row in
      let (b, e) = row_built insert want rows tally conn out built h in
      let made = create want conn built in
      let (bs, p, q) =
        loop-creations insert want rows (tallied C lookup sdk tally made.0) made.1 out h in
      (
        b ∷ bs,
        rw (e, p) refl,
        q
            ∙ ap (λ r. creations want (create want conn r).1 bs) e
            ∙ ap (λ sql. creations want (run_query sdk conn sql (created_with b)).1 bs)
                (create_text-created_by want),
      )

  plain_insert :
      (conn : Connection S T) (insert : Insert) (ret : Bool) (rows : List Row)
      (response : ExecResponse)
      → (insert_all C lookup sdk conn insert ret rows none).0 ≡ ok response
      → (bs : List (SurValue × Object)) × (build_all insert rows ≡ ok bs)
        × (response ≡ ExecResponse.count (length rows))
        × ((insert_all C lookup sdk conn insert ret rows none).1 ≡ creations ret conn bs)
  unfolding insert_all insert_response
  plain_insert conn insert ret rows response h =
      let (out, p, q) = >>=-eq-ok (loop insert ret rows (ok (0, [])) conn).0 _ h in
      let (bs, built, done) = loop-creations insert ret rows (ok (0, [])) conn out p in
      (
        bs,
        built,
        sym (ok-injective q)
            ∙ ap ExecResponse.count (
                insert_rows-count insert ret none rows (ok (0, [])) conn 0 out
                  (λ before e. sym (ap (λ (x : ℕ × List Value). x.0) (ok-injective e))) p
                ∙ omega arith),
        done,
      )

  -- An insert of rows without a `RETURNING` that succeeds has built every row, has asked the server
  -- for one `CREATE` of each in the order of the rows, and nothing else, and answers their number,
  -- whatever types are asked for.
  pub exec_insert-creations :
      (conn : Connection S T) (insert : Insert) (ret : Bool) (rows : List Row)
      (response : ExecResponse)
      → insert.source ≡ Source.values rows
      → insert.returning ≡ none
      → (exec_insert C lookup sdk conn insert ret).0 ≡ ok response
      → (bs : List (SurValue × Object)) × (build_all insert rows ≡ ok bs)
        × (response ≡ ExecResponse.count (length rows))
        × ((exec_insert C lookup sdk conn insert ret).1 ≡ creations ret conn bs)
  unfolding exec_insert insert_source returning_columns build_all
  exec_insert-creations conn insert ret rows response s n h =
      rw (s, n) (plain_insert conn insert ret rows response (rw (s, n) at h))
