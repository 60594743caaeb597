-- ===== src/Op/Keeps.antt =====
-- The connection's transaction and its mode behind each operation.
use toasty_driver_surreal.Prelude.{
  String, Bool, List, [], ◌∷◌, Option, none, some, ◌≡◌, refl, ◌∙◌, is_some, ◌||◌, ℕ,
}
use toasty_driver_surreal.Error.{Error, Result, ok, err}
use toasty_driver_surreal.Schema.{Column, Catalog}
use toasty_driver_surreal.Value.{Value, SurValue, Object}
use toasty_driver_surreal.Value.Codec.{Codec}
use toasty_driver_surreal.Expr.{ExprContext}
use toasty_driver_surreal.Conn.Sdk.{Sdk}
use toasty_driver_surreal.Conn.Session.{Connection, attempt, ask, run_query}
use toasty_driver_surreal.Op.GetByKey.{GetByKey, get_keys, exec_get_by_key}
use toasty_driver_surreal.Op.QueryPk.{
  KeysetSelect, QueryPk, run_keyset_select, pk_predicate, query_input, exec_query_pk,
}
use toasty_driver_surreal.Op.FindPkByIndex.{FindPkByIndex, exec_find_pk_by_index}
use toasty_driver_surreal.Op.Scan.{Scan, scan_predicate, scan_input, exec_scan}
use toasty_driver_surreal.Op.Insert.{
  Insert, build_row, create_row, tallied, insert_rows, insert_source, insert_all, exec_insert,
}
use toasty_driver_surreal.Op.UpdateByKey.{UpdateByKey, update_keys, exec_update_by_key}
use toasty_driver_surreal.Op.DeleteByKey.{DeleteByKey, delete_keys, exec_delete_by_key}
use toasty_driver_surreal.Op.Upsert.{
  Upsert, UpsertClause, UpsertAction, Prepared, prepare_row, targets_primary_key, act,
  upsert_source, upsert_clause, exec_upsert,
}
use toasty_driver_surreal.Op.Write.{Row, Source, returning_columns}
use toasty_driver_surreal.Op.Write.Assign.{Assignment}

-- The connection has the same transaction, in the same mode.
abbrev pub Keeps : {S T : Type 0} → Connection S T → Connection S T → Type 0
Keeps conn after = (after.transaction ≡ conn.transaction) × (after.read_only ≡ conn.read_only)

module _ {S T : Type 0} where
  abbrev pub same : (conn : Connection S T) → Keeps conn conn
  same conn = (refl, refl)

  Keeps-trans : (a b c : Connection S T) → Keeps a b → Keeps b c → Keeps a c
  Keeps-trans a b c (t, r) (u, s) = (u ∙ t, s ∙ r)

  pub attempt-Keeps :
      {A B : Type 0} (conn : Connection S T) (first : Result A)
      (next : A → Result B × Connection S T)
      → ((a : A) → Keeps conn (next a).1)
      → Keeps conn (attempt conn first next).1
  attempt-Keeps conn (err e) next h = same conn
  attempt-Keeps conn (ok a) next h = h a

module _ (C : Codec) (lookup : Object → String → Option SurValue) {S T R : Type 0}
    (sdk : Sdk S T R) where
  get_keys-Keeps :
      (conn : Connection S T) (op : GetByKey) (keys : List Value)
      → Keeps conn (get_keys C lookup sdk conn op keys).1
  unfolding get_keys ask run_query
  get_keys-Keeps conn op [] = same conn
  get_keys-Keeps conn op (key ∷ keys) = attempt-Keeps conn _ _ (λ made. same conn)

  pub exec_get_by_key-Keeps :
      (conn : Connection S T) (op : GetByKey) → Keeps conn (exec_get_by_key C lookup sdk conn op).1
  unfolding exec_get_by_key
  exec_get_by_key-Keeps conn op = get_keys-Keeps conn op op.keys

  run_keyset_select-Keeps :
      (conn : Connection S T) (input : KeysetSelect)
      → Keeps conn (run_keyset_select C lookup sdk conn input).1
  unfolding run_keyset_select ask run_query
  run_keyset_select-Keeps conn input = attempt-Keeps conn _ _ (λ made. same conn)

  create_row-Keeps :
      (conn : Connection S T) (want : Bool) (returning : Option (List Column))
      (built : Result (SurValue × Object))
      → Keeps conn (create_row C lookup sdk conn want returning built).1
  unfolding create_row ask run_query
  create_row-Keeps conn want returning built = attempt-Keeps conn built _ (λ made. same conn)

  insert_rows-Keeps :
      (insert : Insert) (want : Bool) (returning : Option (List Column)) (rows : List Row)
      (tally : Result (ℕ × List Value)) (conn : Connection S T)
      → Keeps conn (insert_rows C lookup sdk insert want returning rows (tally, conn)).1
  unfolding insert_rows
  insert_rows-Keeps insert want returning rows (err e) conn = same conn
  insert_rows-Keeps insert want returning [] (ok tally) conn = same conn
  insert_rows-Keeps insert want returning (row ∷ rows) (ok tally) conn =
      let made = create_row C lookup sdk conn want returning (build_row C insert row) in
      Keeps-trans conn made.1
        (insert_rows C lookup sdk insert want returning rows
          (tallied C lookup sdk tally made.0, made.1)).1
        (create_row-Keeps conn want returning (build_row C insert row))
        (insert_rows-Keeps insert want returning rows (tallied C lookup sdk tally made.0) made.1)

  insert_source-Keeps :
      (conn : Connection S T) (insert : Insert) (ret : Bool) (source : Source)
      → Keeps conn (insert_source C lookup sdk conn insert ret source).1
  unfolding insert_source insert_all
  insert_source-Keeps conn insert ret Source.other = same conn
  insert_source-Keeps conn insert ret (Source.values rows) =
      attempt-Keeps conn (returning_columns "insert" insert.returning)
        (insert_all C lookup sdk conn insert ret rows)
        (λ returning.
          insert_rows-Keeps insert (is_some returning || ret) returning rows (ok (0, [])) conn)

  pub exec_insert-Keeps :
      (conn : Connection S T) (insert : Insert) (ret : Bool)
      → Keeps conn (exec_insert C lookup sdk conn insert ret).1
  unfolding exec_insert
  exec_insert-Keeps conn insert ret = insert_source-Keeps conn insert ret insert.source

  module _ (catalog : Catalog) where
    module _ (cx : ExprContext) where
      pub exec_query_pk-Keeps :
          (conn : Connection S T) (op : QueryPk)
          → Keeps conn (exec_query_pk C cx catalog lookup sdk conn op).1
      unfolding exec_query_pk
      exec_query_pk-Keeps conn op =
          attempt-Keeps conn (pk_predicate C cx catalog op op.filter)
            (λ made. run_keyset_select C lookup sdk conn (query_input C cx catalog op made))
            (λ made. run_keyset_select-Keeps conn (query_input C cx catalog op made))

      pub exec_scan-Keeps :
          (conn : Connection S T) (op : Scan)
          → Keeps conn (exec_scan C cx catalog lookup sdk conn op).1
      unfolding exec_scan
      exec_scan-Keeps conn op =
          attempt-Keeps conn (scan_predicate C cx catalog op.table op.filter)
            (λ made. run_keyset_select C lookup sdk conn (scan_input C cx catalog op made))
            (λ made. run_keyset_select-Keeps conn (scan_input C cx catalog op made))

      pub exec_find_pk_by_index-Keeps :
          (conn : Connection S T) (op : FindPkByIndex)
          → Keeps conn (exec_find_pk_by_index C cx catalog lookup sdk conn op).1
      unfolding exec_find_pk_by_index ask run_query
      exec_find_pk_by_index-Keeps conn op = attempt-Keeps conn _ _ (λ made. same conn)

      delete_keys-Keeps :
          (conn : Connection S T) (op : DeleteByKey) (keys : List Value)
          → Keeps conn (delete_keys C cx sdk conn op keys).1
      unfolding delete_keys ask run_query
      delete_keys-Keeps conn op [] = same conn
      delete_keys-Keeps conn op (key ∷ []) = attempt-Keeps conn _ _ (λ made. same conn)
      delete_keys-Keeps conn op (key ∷ next ∷ keys) = same conn

      pub exec_delete_by_key-Keeps :
          (conn : Connection S T) (op : DeleteByKey)
          → Keeps conn (exec_delete_by_key C cx sdk conn op).1
      unfolding exec_delete_by_key
      exec_delete_by_key-Keeps conn op = delete_keys-Keeps conn op op.keys

    module _ (debug_assignment : Assignment → String) where
      update_keys-Keeps :
          (cx : ExprContext) (conn : Connection S T) (op : UpdateByKey) (keys : List Value)
          → Keeps conn (update_keys C debug_assignment catalog cx lookup sdk conn op keys).1
      unfolding update_keys ask run_query
      update_keys-Keeps cx conn op [] = same conn
      update_keys-Keeps cx conn op (key ∷ []) = attempt-Keeps conn _ _ (λ made. same conn)
      update_keys-Keeps cx conn op (key ∷ next ∷ keys) = same conn

      pub exec_update_by_key-Keeps :
          (cx : ExprContext) (conn : Connection S T) (op : UpdateByKey)
          → Keeps conn (exec_update_by_key C debug_assignment catalog cx lookup sdk conn op).1
      unfolding exec_update_by_key
      exec_update_by_key-Keeps cx conn op = update_keys-Keeps cx conn op op.keys

      module _ (display : Error → String) where
        act-Keeps :
            (conn : Connection S T) (insert : Insert) (clause : UpsertClause) (row : Row)
            (action : UpsertAction)
            (prepared : Prepared C debug_assignment catalog lookup sdk display)
            → Keeps conn
                (act C debug_assignment catalog lookup sdk display conn insert clause row action
                  prepared).1
        unfolding act ask run_query
        act-Keeps conn insert clause row UpsertAction.update (rid, content, returning) =
            attempt-Keeps conn _ _ (λ made. same conn)
        act-Keeps conn insert clause row UpsertAction.ignore (rid, content, returning) = same conn

        upsert_source-Keeps :
            (conn : Connection S T) (insert : Insert) (clause : UpsertClause) (source : Source)
            → Keeps conn
                (upsert_source C debug_assignment catalog lookup sdk display conn insert clause
                  source).1
        unfolding upsert_source
        upsert_source-Keeps conn insert clause Source.other = same conn
        upsert_source-Keeps conn insert clause (Source.values []) = same conn
        upsert_source-Keeps conn insert clause (Source.values (row ∷ [])) =
            attempt-Keeps conn
              (prepare_row C debug_assignment catalog lookup sdk display insert row)
              (act C debug_assignment catalog lookup sdk display conn insert clause row
                clause.action)
              (act-Keeps conn insert clause row clause.action)
        upsert_source-Keeps conn insert clause (Source.values (row ∷ next ∷ rows)) = same conn

        upsert_clause-Keeps :
            (conn : Connection S T) (insert : Insert) (clause : Option UpsertClause)
            → Keeps conn
                (upsert_clause C debug_assignment catalog lookup sdk display conn insert clause).1
        unfolding upsert_clause
        upsert_clause-Keeps conn insert none = same conn
        upsert_clause-Keeps conn insert (some clause) =
            attempt-Keeps conn
              (targets_primary_key C debug_assignment catalog lookup sdk display insert.table
                clause.target)
              (λ u.
                upsert_source C debug_assignment catalog lookup sdk display conn insert clause
                  insert.source)
              (λ u. upsert_source-Keeps conn insert clause insert.source)

        pub exec_upsert-Keeps :
            (conn : Connection S T) (op : Upsert)
            → Keeps conn (exec_upsert C debug_assignment catalog lookup sdk display conn op).1
        unfolding exec_upsert
        exec_upsert-Keeps conn op = upsert_clause-Keeps conn op.stmt op.clause
