-- ===== src/Prelude/Int.antt =====
-- Signed integers over the native numbers, with Rust's casts between machine words.
use Prim.Native.Nat.{ℕ, ◌+◌, ◌-◌, ◌%◌, ◌^◌, ◌<◌}
use mathlib.Core.Path.{◌≡◌}
use native.Mathlib.Omega.{arith}
use native.Mathlib.Nat.{mod-eq_of_lt}
use toasty_driver_surreal.Prelude.Tests.{ltb, if◌then◌else◌}

-- `negsuc n` is -(n + 1).
pub data ℤ : Type 0 where
  pos : ℕ → ℤ
  negsuc : ℕ → ℤ

-- `z as uN`: the residue of `z` modulo `m`, which is 2 ^ N.
unfoldable pub wrap_unsigned : ℕ → ℤ → ℕ
wrap_unsigned m (pos n) = n % m
wrap_unsigned m (negsuc n) = m - 1 - n % m

-- `z as iN`: the residue of `z` modulo `h + h`, which is 2 ^ N, moved below `h`.
unfoldable pub wrap_signed : ℕ → ℤ → ℤ
unfolding wrap_unsigned
wrap_signed h z =
    let r = wrap_unsigned (h + h) z in if ltb r h then pos r else negsuc (h + h - 1 - r)

-- The values of `iN`, for `h` = 2 ^ (N - 1).
abbrev pub FitsSigned : ℕ → ℤ → Type 0
FitsSigned h (pos n) = n < h
FitsSigned h (negsuc n) = n < h

abbrev pub half8 : ℕ
half8 = 2 ^ 7

abbrev pub half16 : ℕ
half16 = 2 ^ 15

abbrev pub half32 : ℕ
half32 = 2 ^ 31

abbrev pub half64 : ℕ
half64 = 2 ^ 63

-- A value that fits its width is not changed by the cast to it.
pub wrap_unsigned-pos : (m n : ℕ) → n < m → wrap_unsigned m (pos n) ≡ n
unfolding wrap_unsigned
wrap_unsigned-pos m n f = mod-eq_of_lt f

pub wrap_signed_fits : (h : ℕ) (z : ℤ) → FitsSigned h z → wrap_signed h z ≡ z
unfolding wrap_signed
wrap_signed_fits h (pos n) f = let e : n % (h + h) ≡ n = mod-eq_of_lt (omega arith) in ground arith
wrap_signed_fits h (negsuc n) f =
    let e : n % (h + h) ≡ n = mod-eq_of_lt (omega arith) in ground arith
