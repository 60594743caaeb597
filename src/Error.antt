-- ===== src/Error.antt =====
-- `toasty_core::Error`, one constructor for each constructor function that the driver calls, with
-- its message, and `toasty_core::Result`.
use toasty_driver_surreal.Prelude.{String, ◌≡◌, refl, Option, none, some}

pub data Error : Type 0 where
  unsupported_feature invalid_statement serialization_failure condition_failed
        driver_operation_failed read_only_transaction :
      String → Error

-- `toasty_core::Result`
pub data Result {ℓ} (T : Type ℓ) : Type ℓ where
  ok : T → Result T
  err : Error → Result T

module _ {ℓ} {T : Type ℓ} where
  -- `Option::ok_or`
  abbrev pub ok_or : Option T → Error → Result T
  ok_or (some t) error = ok t
  ok_or none error = err error

  abbrev pub IsOk : Result T → Type 0
  IsOk (err error) = ⊥
  IsOk (ok t) = Unit

  pub not_ok : {error : Error} {t : T} → err error ≡ ok t → ⊥
  not_ok failed = cc

  pub ok-injective : {x y : T} → ok x ≡ ok y → x ≡ y
  ok-injective same = cc

module _ {ℓ κ} {T : Type ℓ} {U : Type κ} where
  infixl 5 ◌>>=◌
  -- the operator `?`: `do` blocks chain fallible steps by it
  abbrev pub ◌>>=◌ : Result T → (T → Result U) → Result U
  err error >>= next = err error
  ok t >>= next = next t

  -- A chain that succeeds has a first step that does.
  pub >>=-eq-ok :
      (first : Result T) (next : T → Result U) {u : U}
      → (first >>= next) ≡ ok u
      → (t : T) × (first ≡ ok t) × (next t ≡ ok u)
  >>=-eq-ok (err error) next chained = cc
  >>=-eq-ok (ok t) next chained = (t, refl, chained)
