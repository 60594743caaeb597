-- ===== src/Conn/Migrations/Succeeds.antt =====
-- What an operation on migrations that succeeds has done.
use toasty_driver_surreal.Prelude.{String, Option, none, some, ◌≡◌, refl, ap}
use toasty_driver_surreal.Error.{Error, Result, ok, err, not_ok, ◌>>=◌}
use toasty_driver_surreal.Value.{SurValue, Object}
use toasty_driver_surreal.Conn.Sdk.{Answer, done, failed, Sdk}
use toasty_driver_surreal.Conn.Failures.{classify_migration_error, map_err}
use toasty_driver_surreal.Conn.Session.{Connection, ensure_none}
use toasty_driver_surreal.Conn.Session.Passed.{map_err-done}
use toasty_driver_surreal.Conn.Migrations.{followed, when_idle, cancelled, on_server, conclude}

module _ {S T R : Type 0} (sdk : Sdk S T R) (lookup : Object → String → Option SurValue) where
  -- a step after one that succeeds
  pub followed-ok :
      {A B : Type 0} (r : Result A × S) (next : A → S → Result B × S) (b : B)
      → (followed sdk lookup r next).0 ≡ ok b
      → (a : A) × (r.0 ≡ ok a) × (followed sdk lookup r next ≡ next a r.1)
  followed-ok (ok a, s) next b h = (a, refl, refl)
  followed-ok (err e, s) next b h = cc

  abbrev cancelled_result : Error → Answer (Unit {0}) → Result (Unit {0})
  cancelled_result e answer = map_err classify_migration_error answer >>= λ _. err e

  cancelled-err : (e : Error) (answer : Answer (Unit {0})) → cancelled_result e answer ≡ ok tt → ⊥
  cancelled-err e (done u) h = not_ok h
  cancelled-err e (failed f) h = not_ok h

  pub conclude-ok :
      (t : T) (r : Result (Unit {0}) × S)
      → (conclude sdk lookup t r).0 ≡ ok tt
      → (r.0 ≡ ok tt) × (sdk.commit t r.1 ≡ (done tt, (conclude sdk lookup t r).1))
  unfolding conclude cancelled
  conclude-ok t (err e, s) h = absurd (cancelled-err e (sdk.cancel t s).0 h)
  conclude-ok t (ok u, s) h = (
    refl,
    ap (λ a. (a, (sdk.commit t s).1))
        (map_err-done classify_migration_error (sdk.commit t s).0 tt h),
  )

  -- an operation that needs the connection idle, and succeeds
  pub when_idle-ok :
      {A : Type 0} (conn : Connection S T) (checks : Result (Unit {0})) (step : S → Result A × S)
      (a : A)
      → (when_idle sdk lookup conn checks step).0 ≡ ok a
      → (checks ≡ ok tt)
        × (when_idle sdk lookup conn checks step ≡ on_server sdk lookup conn (step conn.server))
  unfolding when_idle
  when_idle-ok conn (err e) step a h = cc
  when_idle-ok conn (ok u) step a h = (refl, refl)

  pub idle :
      (transaction : Option T) (first second : String)
      → ensure_none sdk transaction first ≡ ok tt
      → ensure_none sdk transaction second ≡ ok tt
  unfolding ensure_none
  idle none first second h = refl
  idle (some t) first second h = cc
