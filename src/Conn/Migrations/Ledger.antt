-- ===== src/Conn/Migrations/Ledger.antt =====
-- A migration that has been applied is among the applied migrations.
use toasty_driver_surreal.Prelude.{
  ℕ, ◌<◌, ◌^◌, String, List, [], ◌∷◌, Option, some, ◌≡◌, refl, ap, sym, ◌∙◌, In, map, subst,
}
use toasty_driver_surreal.Text.{decimal}
use toasty_driver_surreal.Error.{Result, ok, not_ok}
use toasty_driver_surreal.Value.{SurValue, RecordIdKey, Object}
use toasty_driver_surreal.Expr.{Binds, escape_ident}
use toasty_driver_surreal.Conn.Sdk.{Answer, done, failed, Sdk}
use toasty_driver_surreal.Conn.Failures.{classify_migration_error}
use toasty_driver_surreal.Conn.Session.{
  Connection, ensure_no_active_transaction, checked, take_rows,
}
use toasty_driver_surreal.Conn.Session.Passed.{checked-done}
use toasty_driver_surreal.Conn.Migrations.Succeeds.{followed-ok, conclude-ok, when_idle-ok, idle}
use toasty_driver_surreal.Op.QueryPk.Found.{rows_array, elements-rows_array}
use toasty_driver_surreal.Conn.Migrations.{
  followed, direct, inside, ensure_migrations_table, when_idle, apply_statements, track, on_server,
  conclude, in_transaction, apply_migration, tracked_text, tracked_id, tracked_ids, tracked_rows,
  applied_migrations,
}

module _ {S T R : Type 0} (sdk : Sdk S T R) (lookup : Object → String → Option SurValue) where
  -- The row shows the id, which is a `u64`.
  abbrev ShowsId : Object → ℕ → Type 0
  ShowsId row id = (lookup row "migration_id" ≡ some (SurValue.string (decimal id))) × (id < 2 ^ 64)

  abbrev pub ShowIds : List Object → List ℕ → Type 0
  ShowIds [] [] = Unit
  ShowIds (row ∷ rows) (id ∷ ids) = ShowsId row id × ShowIds rows ids
  ShowIds _ _ = ⊥

  abbrev created_text : String
  created_text =
      "CREATE $migration_record SET name = $migration_name, applied_at = time::now() RETURN NONE"

  abbrev created_binds : ℕ → String → Binds
  created_binds id name =
      (
        "migration_record",
        SurValue.record_id "__toasty_migrations" (RecordIdKey.key_string (decimal id)),
      )
      ∷ ("migration_name", SurValue.string name)
      ∷ []

  abbrev IsPassed : R → Type 0
  IsPassed r = sdk.check r ≡ done r

  -- What SurrealDB says of the tracking table, for the ids in it as others see them: a record that
  -- is created in a transaction is in it after the commit; defining the table makes it `Ready`, and
  -- keeps the ids that are in it; the rows of a table that is `Ready` can be selected. `parse` reads
  -- a `u64`.
  pub record IsLedger (Ready : S → Type 0) (ledger : S → List ℕ) (Pending : T → S → ℕ → Type 0)
      : Type 0 where
    pub created :
        (t : T) (s after : S) (r passed : R) (id : ℕ) (name : String)
        → id < 2 ^ 64
        → sdk.query_in t created_text (created_binds id name) s ≡ (done r, after)
        → sdk.check r ≡ done passed
        → Pending t after id
    pub committed :
        (t : T) (s after : S) (id : ℕ)
        → Pending t s id
        → sdk.commit t s ≡ (done tt, after)
        → In id (ledger after)
    pub defined :
        (s : S)
        → (r : R) × (after : S) × (sdk.query
              "DEFINE TABLE IF NOT EXISTS `__toasty_migrations` SCHEMALESS" [] s
            ≡ (done r, after))
          × IsPassed r
          × Ready after
          × (ledger after ≡ ledger s)
    pub listed :
        (s : S)
        → Ready s
        → (r : R) × (after : S) × (rows : List Object) × (sdk.query
              "SELECT record::id(id) AS `migration_id` FROM `__toasty_migrations`" [] s
            ≡ (done r, after))
          × IsPassed r
          × (sdk.take r 0 ≡ done (SurValue.array (rows_array rows)))
          × ShowIds rows (ledger s)
    pub parses : (id : ℕ) → id < 2 ^ 64 → sdk.parse_u64 (decimal id) ≡ some id

  module _ {Ready : S → Type 0} {ledger : S → List ℕ} {Pending : T → S → ℕ → Type 0}
      (L : IsLedger Ready ledger Pending) where
    track-Pending :
        (t : T) (id : ℕ) (name : String) (s : S)
        → id < 2 ^ 64
        → (track sdk lookup t id name s).0 ≡ ok tt
        → Pending t (track sdk lookup t id name s).1 id
    unfolding track inside
    track-Pending t id name s small h =
        let (passed, c, step) =
          followed-ok sdk lookup (inside sdk lookup t (created_text) (created_binds id name) s)
            (λ _ after. (ok tt, after)) tt h in
        let asked = sdk.query_in t created_text (created_binds id name) s in
        let (r, q, p) = checked-done sdk classify_migration_error asked.0 passed c in
        subst (λ reached. Pending t reached id) (ap (λ result. result.1) (sym step))
          (L.created t s asked.1 r passed id name small (ap (λ answer. (answer, asked.1)) q) p)

    conclude-In :
        (t : T) (id : ℕ) (r : Result (Unit {0}) × S)
        → (r.0 ≡ ok tt → Pending t r.1 id)
        → (conclude sdk lookup t r).0 ≡ ok tt
        → In id (ledger (conclude sdk lookup t r).1)
    conclude-In t id r pending h =
        let (o, c) = conclude-ok sdk lookup t r h in
        L.committed t r.1 (conclude sdk lookup t r).1 id (pending o) c

    in_transaction-In :
        (id : ℕ) (name : String) (statements : List String) (answer : Answer T × S)
        → id < 2 ^ 64
        → (in_transaction sdk lookup id name statements answer).0 ≡ ok tt
        → In id (ledger (in_transaction sdk lookup id name statements answer).1)
    unfolding in_transaction
    in_transaction-In id name statements (failed failure, s) small h = absurd (not_ok h)
    in_transaction-In id name statements (done t, s) small h =
        conclude-In t id
          (followed sdk lookup (apply_statements sdk lookup t statements s)
            (λ _. track sdk lookup t id name))
          (λ o.
            let (u, a, step) =
              followed-ok sdk lookup (apply_statements sdk lookup t statements s)
                (λ _. track sdk lookup t id name) tt o in
            subst (λ result. Pending t result.1 id) (sym step)
              (track-Pending t id name (apply_statements sdk lookup t statements s).1 small
                (ap (λ result. result.0) (sym step) ∙ o)))
          h

    ensure_migrations_table-Ready :
        (s : S)
        → (after : S) × (ensure_migrations_table sdk lookup s ≡ (ok tt, after))
          × Ready after
          × (ledger after ≡ ledger s)
    unfolding ensure_migrations_table direct checked escape_ident
    ensure_migrations_table-Ready s =
        let (r, after, asked, passed, usable, same) = L.defined s in
        (after, rw (asked, passed) refl, usable, same)

    tracked_ids-ShowIds :
        (rows : List Object) (ids : List ℕ)
        → ShowIds rows ids
        → tracked_ids sdk lookup (map SurValue.object rows) ≡ ok ids
    unfolding tracked_ids tracked_id tracked_text
    tracked_ids-ShowIds [] [] shown = refl
    tracked_ids-ShowIds [] (id ∷ ids) shown = absurd shown
    tracked_ids-ShowIds (row ∷ rows) [] shown = absurd shown
    tracked_ids-ShowIds (row ∷ rows) (id ∷ ids) ((cell, bound), shown) =
        rw (cell, L.parses id bound, tracked_ids-ShowIds rows ids shown) refl

    tracked_rows-ShowIds :
        (r : R) (rows : List Object) (ids : List ℕ)
        → sdk.take r 0 ≡ done (SurValue.array (rows_array rows))
        → ShowIds rows ids
        → tracked_rows sdk lookup r ≡ ok ids
    unfolding tracked_rows take_rows
    tracked_rows-ShowIds r rows ids taken shown =
        rw (taken, elements-rows_array rows) (tracked_ids-ShowIds rows ids shown)

    applied_migrations-ledger :
        (conn : Connection S T)
        → ensure_no_active_transaction sdk conn "query applied migrations" ≡ ok tt
        → (applied_migrations sdk lookup conn).0 ≡ ok (ledger conn.server)
    unfolding applied_migrations when_idle direct checked escape_ident
    applied_migrations-ledger conn none_active =
        let (ready, ensured, usable, same) = ensure_migrations_table-Ready conn.server in
        let (r, after, rows, asked, passed, taken, shown) = L.listed ready usable in
        rw (none_active, ensured, asked, passed)
          (tracked_rows-ShowIds r rows (ledger ready) taken shown ∙ ap ok same)

    -- what a connection that is idle then lists
    applied_migrations-In :
        (conn : Connection S T) (result : Result (Unit {0}) × S) (id : ℕ)
        → ensure_no_active_transaction sdk conn "apply a migration" ≡ ok tt
        → In id (ledger result.1)
        → (ids : List ℕ) × ((applied_migrations sdk lookup (on_server sdk lookup conn result).1).0
            ≡ ok ids)
          × In id ids
    unfolding ensure_no_active_transaction
    applied_migrations-In conn (outcome, s) id none_active applied = (
      ledger s,
      applied_migrations-ledger (record conn { server = s })
          (idle sdk lookup conn.transaction "apply a migration" "query applied migrations"
            none_active),
      applied,
    )

    -- A migration whose id is a `u64` and that was applied is among the applied migrations that the
    -- connection then lists, which it does without an error: on every server whose tracking table,
    -- once it is defined, shows the records that committed transactions have created in it.
    pub applied_migrations-apply_migration :
        (conn : Connection S T) (id : ℕ) (name : String) (statements : List String)
        → id < 2 ^ 64
        → (apply_migration sdk lookup conn id name statements).0 ≡ ok tt
        → (ids : List ℕ) × ((applied_migrations sdk lookup
              (apply_migration sdk lookup conn id name statements).1).0
            ≡ ok ids)
          × In id ids
    unfolding apply_migration
    applied_migrations-apply_migration conn id name statements small h =
        let run : S → Result (Unit {0}) × S = λ server.
          followed sdk lookup (ensure_migrations_table sdk lookup server)
            (λ _ ready. in_transaction sdk lookup id name statements (sdk.begin ready)) in
        let (none_active, ran) =
          when_idle-ok sdk lookup conn (ensure_no_active_transaction sdk conn "apply a migration")
            run tt h in
        let succeeded : (run conn.server).0 ≡ ok tt = ap (λ result. result.0) (sym ran) ∙ h in
        let (u, ensured, step) =
          followed-ok sdk lookup (ensure_migrations_table sdk lookup conn.server)
            (λ _ ready. in_transaction sdk lookup id name statements (sdk.begin ready)) tt
            succeeded in
        let begun = sdk.begin (ensure_migrations_table sdk lookup conn.server).1 in
        let applied : In id (ledger (run conn.server).1) =
          subst (λ result. In id (ledger result.1)) (sym step)
            (in_transaction-In id name statements begun small
              (ap (λ result. result.0) (sym step) ∙ succeeded)) in
        subst
          (λ after. (ids : List ℕ) × ((applied_migrations sdk lookup after).0 ≡ ok ids) × In id ids)
          (ap (λ result. result.1) (sym ran))
          (applied_migrations-In conn (run conn.server) id none_active applied)
