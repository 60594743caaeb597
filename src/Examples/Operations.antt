-- ===== src/Examples/Operations.antt =====
-- The theorems on operations at concrete inputs.
use toasty_driver_surreal.Prelude.{List, ℕ, ◌<>◌, pos, String, [], ◌∷◌, some, ◌≡◌, refl}
use toasty_driver_surreal.Error.{ok}
use toasty_driver_surreal.Text.{decimal}
use toasty_driver_surreal.Value.{Value, SurValue, RecordIdKey}
use toasty_driver_surreal.Expr.{Binds}
use toasty_driver_surreal.Expr.Fragment.Numbering.{bound}
use toasty_driver_surreal.Op.GetByKey.{key_targets}
use toasty_driver_surreal.Op.GetByKey.Targets.{Targets, key_targets-get_elem?}
use toasty_driver_surreal.Examples.Samples.{codec, users}

abbrev two_keys : List Value
two_keys = Value.u64 41 ∷ Value.u64 42 ∷ []

abbrev user_key : ℕ → SurValue
user_key n = SurValue.record_id "users" (RecordIdKey.key_number (pos n))

abbrev two_targets : List String × Binds
two_targets = ("$k0" ∷ "$k1" ∷ [], ("k0", user_key 41) ∷ ("k1", user_key 42) ∷ [])

two_targets-made : key_targets codec users 0 two_keys ≡ ok two_targets
unfolding key_targets decimal
two_targets-made = refl

key_targets-get_elem?_example :
    Targets codec users 1 (Value.u64 42) (some "$k1") (bound ("k" <> decimal 1) two_targets.1)
key_targets-get_elem?_example =
    key_targets-get_elem? codec users two_keys two_targets 1 (Value.u64 42) two_targets-made refl
