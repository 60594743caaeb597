-- ===== src/Conn/Sdk.antt =====
-- What src/conn.rs uses of the surrealdb crate: a server in a state `S`, transactions `T` on it and
-- responses `R`. The driver's code takes these operations as an argument.
use toasty_driver_surreal.Prelude.{ℕ, String, Bool, List, Option}
use toasty_driver_surreal.Value.{SurValue}
use toasty_driver_surreal.Expr.{Binds}

-- `surrealdb::Error`: its text, and whether the details of it and of each of its causes are a
-- transaction conflict.
pub record Failure : Type 0 where
  pub message : String
  pub conflicts : List Bool

pub data Answer (A : Type 0) : Type 0 where
  done : A → Answer A
  failed : Failure → Answer A

pub record Sdk (S T R : Type 0) : Type 0 where
  -- `db.query(..).bind(..).await`, and the same on a transaction
  pub query : String → Binds → S → Answer R × S
  pub query_in : T → String → Binds → S → Answer R × S
  pub begin : S → Answer T × S
  pub commit : T → S → Answer (Unit {0}) × S
  pub cancel : T → S → Answer (Unit {0}) × S
  -- `response.check()` and `response.take(index)`
  pub check : R → Answer R
  pub take : R → ℕ → Answer SurValue
  -- `str::parse::<u64>`
  pub parse_u64 : String → Option ℕ
