-- ===== src/Conn/Migrations/Atomic.antt =====
-- A migration that fails leaves no trace in the committed data.
use toasty_driver_surreal.Prelude.{
  ℕ, String, List, [], ◌∷◌, Option, ◌≡◌, refl, ap, ◌∙◌, ◌⊎◌, inl, inr, Bool-cases,
}
use toasty_driver_surreal.Text.{is_blank}
use toasty_driver_surreal.Error.{Error, Result, ok, err}
use toasty_driver_surreal.Value.{SurValue, Object}
use toasty_driver_surreal.Expr.{Binds}
use toasty_driver_surreal.Conn.Sdk.{Failure, Answer, done, failed, Sdk}
use toasty_driver_surreal.Conn.Failures.{classify_migration_error, map_err}
use toasty_driver_surreal.Conn.Session.{Connection, ensure_no_active_transaction}
use toasty_driver_surreal.Conn.Migrations.{
  followed, inside, ensure_migrations_table, when_idle, apply_statements, track, cancelled,
  conclude, in_transaction, apply_migration,
}

-- What SurrealDB says of transactions: what others see of the server changes with a commit that
-- succeeds, and with nothing else that is done in a transaction.
pub record IsTransactional {S T R : Type 0} (sdk : Sdk S T R) {D : Type 0} (view : S → D)
    : Type 0 where
  pub begin_keeps : (s : S) → view (sdk.begin s).1 ≡ view s
  pub query_in_keeps :
      (t : T) (sql : String) (binds : Binds) (s : S) → view (sdk.query_in t sql binds s).1 ≡ view s
  pub cancel_keeps : (t : T) (s : S) → view (sdk.cancel t s).1 ≡ view s
  pub failed_commit_keeps :
      (t : T) (s : S) (f : Failure)
      → (sdk.commit t s).0 ≡ failed f
      → view (sdk.commit t s).1 ≡ view s

module _ {S T R : Type 0} (sdk : Sdk S T R) (lookup : Object → String → Option SurValue)
    {D : Type 0} (view : S → D) (L : IsTransactional sdk view) where
  -- a step that does not change what others see
  abbrev Keeps : {A : Type 0} → S → Result A × S → Type 0
  Keeps before (result, after) = view after ≡ view before

  -- the same, when it fails
  abbrev FailsUnseen : {A : Type 0} → S → Result A × S → Type 0
  FailsUnseen before (ok a, after) = Unit
  FailsUnseen before (err e, after) = view after ≡ view before

  Keeps-followed :
      {A B : Type 0} (s : S) (r : Result A × S) (next : A → S → Result B × S)
      → Keeps s r
      → ((a : A) (x : S) → Keeps x (next a x))
      → Keeps s (followed sdk lookup r next)
  Keeps-followed s (ok a, x) next h k = k a x ∙ h
  Keeps-followed s (err e, x) next h k = h

  inside-Keeps :
      (t : T) (sql : String) (binds : Binds) (s : S) → Keeps s (inside sdk lookup t sql binds s)
  unfolding inside
  inside-Keeps t sql binds s = L.query_in_keeps t sql binds s

  statements_keep :
      (t : T) (statements : List String) (s : S)
      → Keeps s (apply_statements sdk lookup t statements s)
  unfolding apply_statements
  statements_keep t [] s = refl
  statements_keep t (x ∷ xs) s = elim (Bool-cases (is_blank x)) [
    | inl e ↦ rw (apply_statements, e) (statements_keep t xs s)
    | inr e ↦
        rw (apply_statements, e)
          (Keeps-followed s (inside sdk lookup t x [] s) _ (inside-Keeps t x [] s)
            (λ r. statements_keep t xs))
  ]

  track-Keeps : (t : T) (id : ℕ) (name : String) (s : S) → Keeps s (track sdk lookup t id name s)
  unfolding track
  track-Keeps t id name s = Keeps-followed s _ _ (inside-Keeps t _ _ s) (λ r x. refl)

  commit_unseen :
      (t : T) (s : S) (a : Answer (Unit {0}))
      → (sdk.commit t s).0 ≡ a
      → FailsUnseen s (map_err classify_migration_error a, (sdk.commit t s).1)
  commit_unseen t s (done u) h = tt
  commit_unseen t s (failed f) h = L.failed_commit_keeps t s f h

  unseen_from : {A : Type 0} (before : S) (r : Result A × S) → Keeps before r → FailsUnseen before r
  unseen_from before (ok a, s) h = tt
  unseen_from before (err e, s) h = h

  unseen_since :
      {A : Type 0} (before s : S) (r : Result A × S)
      → view s ≡ view before
      → FailsUnseen s r
      → FailsUnseen before r
  unseen_since before s (ok a, x) h k = tt
  unseen_since before s (err e, x) h k = k ∙ h

  conclude_unseen :
      (t : T) (before : S) (r : Result (Unit {0}) × S)
      → Keeps before r
      → FailsUnseen before (conclude sdk lookup t r)
  unfolding conclude cancelled
  conclude_unseen t before (err e, s) h = unseen_from before _ (L.cancel_keeps t s ∙ h)
  conclude_unseen t before (ok u, s) h =
      unseen_since before s
        (map_err classify_migration_error (sdk.commit t s).0, (sdk.commit t s).1) h
        (commit_unseen t s (sdk.commit t s).0 refl)

  in_transaction_unseen :
      (id : ℕ) (name : String) (statements : List String) (s : S) (a : Answer T × S)
      → view a.1 ≡ view s
      → FailsUnseen s (in_transaction sdk lookup id name statements a)
  unfolding in_transaction
  in_transaction_unseen id name statements s (failed f, x) h = h
  in_transaction_unseen id name statements s (done t, x) h =
      unseen_since s x (conclude sdk lookup t _) h (
        conclude_unseen t x _ (
          Keeps-followed x _ (λ _. track sdk lookup t id name) (statements_keep t statements x)
            (λ u. track-Keeps t id name)))

  -- the server's committed data are as they were before, or as the creation of the tracking table
  -- left them
  abbrev pub Untouched : S → S → Type 0
  Untouched before after =
      (view after ≡ view before) ⊎ (view after ≡ view (ensure_migrations_table sdk lookup before).1)

  abbrev FailsUntouched : S → Result (Unit {0}) × S → Type 0
  FailsUntouched before (ok u, after) = Unit
  FailsUntouched before (err e, after) = Untouched before after

  after_ready :
      (before ready : S) (r : Result (Unit {0}) × S)
      → ready ≡ (ensure_migrations_table sdk lookup before).1
      → FailsUnseen ready r
      → FailsUntouched before r
  after_ready before ready (ok u, x) e h = tt
  after_ready before ready (err f, x) e h = inr (h ∙ ap view e)

  migration_untouched :
      (before : S) (r : Result (Unit {0}) × S) (next : Unit {0} → S → Result (Unit {0}) × S)
      → r ≡ ensure_migrations_table sdk lookup before
      → ((u : Unit {0}) (ready : S) → FailsUnseen ready (next u ready))
      → FailsUntouched before (followed sdk lookup r next)
  migration_untouched before (err e, x) next h k =
      inr (ap (λ (p : Result (Unit {0}) × S). view p.1) h)
  migration_untouched before (ok u, x) next h k =
      after_ready before x (next u x) (ap (λ (p : Result (Unit {0}) × S). p.1) h) (k u x)

  failing :
      (before : S) (r : Result (Unit {0}) × S) (e : Error)
      → FailsUntouched before r
      → r.0 ≡ err e
      → Untouched before r.1
  failing before (ok u, x) e h k = cc
  failing before (err f, x) e h k = h

  -- On a server where what others see of a transaction changes only by a commit that succeeds: when
  -- applying a migration fails, at whatever statement and also in the commit, the committed data
  -- are what they were before, but for the tracking table that may have been created first; no
  -- statement of the migration and no tracking row is kept. The connection's transaction and its
  -- mode are what they were.
  pub apply_migration-atomic :
      (conn : Connection S T) (id : ℕ) (name : String) (statements : List String) (e : Error)
      → (apply_migration sdk lookup conn id name statements).0 ≡ err e
      → Untouched conn.server (apply_migration sdk lookup conn id name statements).1.server
        × ((apply_migration sdk lookup conn id name statements).1.transaction ≡ conn.transaction)
        × ((apply_migration sdk lookup conn id name statements).1.read_only ≡ conn.read_only)
  unfolding apply_migration when_idle
  apply_migration-atomic conn id name statements e =
      by_check (ensure_no_active_transaction sdk conn "apply a migration")
    where
      body : S → Result (Unit {0}) × S
      body server =
          followed sdk lookup (ensure_migrations_table sdk lookup server)
            (λ _ ready. in_transaction sdk lookup id name statements (sdk.begin ready))

      by_check :
          (check : Result (Unit {0}))
          → (when_idle sdk lookup conn check body).0 ≡ err e
          → Untouched conn.server (when_idle sdk lookup conn check body).1.server
            × ((when_idle sdk lookup conn check body).1.transaction ≡ conn.transaction)
            × ((when_idle sdk lookup conn check body).1.read_only ≡ conn.read_only)
      by_check (err f) h = (inl refl, refl, refl)
      by_check (ok u) h = (
        failing conn.server (body conn.server) e
            (migration_untouched conn.server (ensure_migrations_table sdk lookup conn.server) _ refl
              (λ v ready.
                in_transaction_unseen id name statements ready (sdk.begin ready)
                  (L.begin_keeps ready)))
            h,
        refl,
        refl,
      )
