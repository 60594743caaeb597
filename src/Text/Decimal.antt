-- ===== src/Text/Decimal.antt =====
-- Decimal texts are read back as their numbers, so two numbers never share one.
use Prim.Native.Char.{code}
use text.Mathlib.TextLemmas.{cons-append, nil-append}
use toasty_driver_surreal.Prelude.{
  ℕ, zero, suc, ◌+◌, ◌-◌, ◌*◌, ◌/◌, ◌%◌, ◌<◌, String, ◌<>◌, ◌≡◌, refl, ap, sym, ◌∙◌, Bool-cases,
  inl, inr, ltb, arith,
}
use toasty_driver_surreal.Text.{digit, digits, decimal}

unfoldable pub read_digits : ℕ → String → ℕ
read_digits acc String.[] = acc
read_digits acc (String.◌∷◌ c s) = read_digits (acc * 10 + (code c - b'0')) s

read_digits-append :
    (acc : ℕ) (s t : String) → read_digits acc (s <> t) ≡ read_digits (read_digits acc s) t
unfolding read_digits
read_digits-append acc String.[] t = rw nil-append refl
read_digits-append acc (String.◌∷◌ c s) t =
    rw cons-append (read_digits-append (acc * 10 + (code c - b'0')) s t)

read_digits-digit : (acc d : ℕ) → d < 10 → read_digits acc (digit d) ≡ acc * 10 + d
unfolding read_digits digit
read_digits-digit acc zero h = omega arith
read_digits-digit acc (suc zero) h = omega arith
read_digits-digit acc (suc (suc zero)) h = omega arith
read_digits-digit acc (suc (suc (suc zero))) h = omega arith
read_digits-digit acc (suc (suc (suc (suc zero)))) h = omega arith
read_digits-digit acc (suc (suc (suc (suc (suc zero))))) h = omega arith
read_digits-digit acc (suc (suc (suc (suc (suc (suc zero)))))) h = omega arith
read_digits-digit acc (suc (suc (suc (suc (suc (suc (suc zero))))))) h = omega arith
read_digits-digit acc (suc (suc (suc (suc (suc (suc (suc (suc zero)))))))) h = omega arith
read_digits-digit acc (suc (suc (suc (suc (suc (suc (suc (suc (suc d))))))))) h = omega arith

read_digits-digits : (fuel n : ℕ) → n < fuel → read_digits 0 (digits fuel n) ≡ n
unfolding digits
read_digits-digits zero n h = absurd (omega arith)
read_digits-digits (suc fuel) n h = elim (Bool-cases (ltb n 10)) [
  | inl small ↦ rw small (read_digits-digit 0 n (ground arith) ∙ omega arith)
  | inr large ↦
      rw (large, read_digits-append)
        (read_digits-digit (read_digits 0 (digits fuel (n / 10))) (n % 10) (omega arith)
          ∙ let e = read_digits-digits fuel (n / 10) (ground arith) in omega arith)
]

pub read_digits-decimal : (n : ℕ) → read_digits 0 (decimal n) ≡ n
unfolding decimal
read_digits-decimal n = read_digits-digits (suc n) n (omega arith)

pub decimal-injective : (m n : ℕ) → decimal m ≡ decimal n → m ≡ n
decimal-injective m n e = sym (read_digits-decimal m) ∙ ap (read_digits 0) e ∙ read_digits-decimal n
