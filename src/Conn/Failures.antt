-- ===== src/Conn/Failures.antt =====
-- The classification of the server's errors in src/conn.rs.
use toasty_driver_surreal.Prelude.{Bool, any, ◌||◌, if◌then◌else◌}
use toasty_driver_surreal.Text.{contains}
use toasty_driver_surreal.Error.{
  Error, Result, ok, err, unsupported_feature, serialization_failure, condition_failed,
  driver_operation_failed,
}
use toasty_driver_surreal.Conn.Sdk.{Failure, Answer, done, failed}

-- the loop over the error and its causes
unfoldable pub is_transaction_conflict : Failure → Bool
is_transaction_conflict failure = any (λ conflict. conflict) failure.conflicts

abbrev is_conflict : Failure → Bool
is_conflict failure =
    is_transaction_conflict failure || contains failure.message "Transaction conflict:"

unfoldable pub classify_error : Failure → Error
unfolding is_transaction_conflict contains
classify_error failure =
    if is_conflict failure
    then serialization_failure failure.message
    else if contains failure.message "already exists"
    then condition_failed failure.message
    else driver_operation_failed failure.message

unfoldable pub classify_migration_error : Failure → Error
unfolding is_transaction_conflict contains
classify_migration_error failure =
    if is_conflict failure
    then serialization_failure "SurrealDB migration transaction conflicted"
    else if contains failure.message "manual migration required:"
    then unsupported_feature "SurrealDB migration requires manual editing before it can be applied"
    else if contains failure.message "already exists"
    then condition_failed "SurrealDB migration object already exists"
    else driver_operation_failed "SurrealDB migration statement failed"

-- `map_err(classify)`
abbrev pub map_err : {A : Type 0} → (Failure → Error) → Answer A → Result A
map_err classify (done a) = ok a
map_err classify (failed failure) = err (classify failure)
