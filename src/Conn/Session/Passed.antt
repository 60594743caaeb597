-- ===== src/Conn/Session/Passed.antt =====
-- A response that has passed its checks.
use toasty_driver_surreal.Prelude.{◌≡◌, refl, ap}
use toasty_driver_surreal.Error.{Error, ok, ok-injective}
use toasty_driver_surreal.Conn.Failures.{map_err}
use toasty_driver_surreal.Conn.Sdk.{Failure, Answer, done, failed, Sdk}
use toasty_driver_surreal.Conn.Session.{checked}

pub map_err-done :
    {A : Type 0} (classify : Failure → Error) (answer : Answer A) (a : A)
    → map_err classify answer ≡ ok a
    → answer ≡ done a
map_err-done classify (done x) a h = ap done (ok-injective h)
map_err-done classify (failed f) a h = cc

pub checked-done :
    {S T R : Type 0} (sdk : Sdk S T R) (classify : Failure → Error) (answer : Answer R) (passed : R)
    → checked sdk classify answer ≡ ok passed
    → (r : R) × (answer ≡ done r) × (sdk.check r ≡ done passed)
unfolding checked
checked-done sdk classify (done r) passed h =
    (r, refl, map_err-done classify (sdk.check r) passed h)
checked-done sdk classify (failed f) passed h = cc
