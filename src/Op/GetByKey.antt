-- ===== src/Op/GetByKey.antt =====
-- src/op/get_by_key.rs.
pub mod Targets
use toasty_driver_surreal.Prelude.{ℕ, suc, String, ◌<>◌, List, [], ◌∷◌, Option}
use toasty_driver_surreal.Text.{join, decimal}
use toasty_driver_surreal.Error.{Result, ok, err, ◌>>=◌}
use toasty_driver_surreal.Schema.{Column, Table}
use toasty_driver_surreal.Value.{Value, SurValue, Object}
use toasty_driver_surreal.Value.Codec.{Codec}
use toasty_driver_surreal.RecordId.{record_id, to_value}
use toasty_driver_surreal.Expr.{Binds}
use toasty_driver_surreal.Conn.Sdk.{Sdk}
use toasty_driver_surreal.Conn.Session.{Connection, attempt, ask, take_rows}
use toasty_driver_surreal.Op.{ExecResponse, value_stream, project_columns, rows_to_records}

-- `operation::GetByKey`, with its table and its columns looked up
pub record GetByKey : Type 0 where
  pub table : Table
  pub select : List Column
  pub keys : List Value

module _ (C : Codec) where
  -- the loop over the keys, from the `i`-th: the targets and the binds
  unfoldable pub key_targets : Table → ℕ → List Value → Result (List String × Binds)
  unfolding record_id
  key_targets table i [] = ok ([], [])
  key_targets table i (key ∷ keys) = do
    rid ← record_id C table key
    (targets, binds) ← key_targets table (suc i) keys
    ok (("$k" <> decimal i) ∷ targets, ("k" <> decimal i, to_value rid) ∷ binds)

module _ (C : Codec) (lookup : Object → String → Option SurValue) {S T R : Type 0}
    (sdk : Sdk S T R) where
  unfoldable pub decode_response : GetByKey → Result R → Result ExecResponse
  unfolding take_rows rows_to_records
  decode_response op response = do
    r ← response
    rows ← take_rows sdk r 0
    records ← rows_to_records C lookup rows op.select
    ok (value_stream records)

  unfoldable pub select_text : GetByKey → List String → String
  unfolding project_columns
  select_text op targets =
      "SELECT " <> project_columns op.table op.select <> " FROM " <> join ", " targets

  unfoldable pub get_keys :
      Connection S T → GetByKey → List Value → Result ExecResponse × Connection S T
  unfolding key_targets select_text ask decode_response
  get_keys conn op [] = (ok (value_stream []), conn)
  get_keys conn op (key ∷ keys) =
      attempt conn (key_targets C op.table 0 (key ∷ keys))
        (λ (targets, binds). ask sdk conn (select_text op targets, binds) (decode_response op))

  unfoldable pub exec_get_by_key : Connection S T → GetByKey → Result ExecResponse × Connection S T
  unfolding get_keys
  exec_get_by_key conn op = get_keys conn op op.keys
