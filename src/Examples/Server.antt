-- ===== src/Examples/Server.antt =====
-- A server that keeps the statements it is asked, answers each with one value, and refuses those of
-- one text.
use toasty_driver_surreal.Prelude.{
  ℕ, String, true, false, List, [], ◌∷◌, ◌++◌, none, some, str_eq, if◌then◌else◌,
}
use toasty_driver_surreal.Value.{SurValue}
use toasty_driver_surreal.Conn.Sdk.{Failure, Answer, done, failed, Sdk}
use toasty_driver_surreal.Conn.Session.{Connection}

abbrev pub duplicate : Failure
duplicate = record { message = "Database record already exists"; conflicts = [] }

abbrev answer : String → String → Answer SurValue
answer refused sql = if str_eq sql refused then failed duplicate else done SurValue.none

abbrev pub sdk_refusing : String → Sdk (List String) ℕ SurValue
sdk_refusing refused = record {
  query = λ sql binds s. (answer refused sql, s ++ sql ∷ []);
  query_in = λ t sql binds s. (answer refused sql, s ++ sql ∷ []);
  begin = λ s. (done 1, s);
  commit = λ t s. (done tt, s);
  cancel = λ t s. (done tt, s);
  check = λ r. done r;
  take = λ r index. done r;
  parse_u64 = λ s. none;
}

abbrev pub sdk : Sdk (List String) ℕ SurValue
sdk = sdk_refusing ""

abbrev pub opened : Connection (List String) ℕ
opened = record { server = []; transaction = none; read_only = false }

abbrev pub reading : Connection (List String) ℕ
reading = record { server = []; transaction = some 1; read_only = true }
