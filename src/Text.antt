-- ===== src/Text.antt =====
-- The text operations of Rust's standard library that the driver uses.
pub mod Quote
pub mod Decimal
pub mod Replace
use Prim.Native.Char.{code}
use toasty_driver_surreal.Prelude.{
  ℕ, zero, suc, ◌/◌, ◌%◌, String, ◌<>◌, List, [], ◌∷◌, ltb, leb, ◌==◌, if◌then◌else◌, Bool, true,
  false, ◌&&◌, ◌||◌, any, ◌≡◌, str_eq, eq_iff, arith,
}

-- `str::replace` of one character, named by its code.
unfoldable pub replace : ℕ → String → String → String
replace from to String.[] = String.[]
replace from to (String.◌∷◌ c s) =
    (if code c == from then to else String.◌∷◌ c String.[]) <> replace from to s

-- `parts.join(sep)`
unfoldable pub join : String → List String → String
join sep [] = ""
join sep (x ∷ []) = x
join sep (x ∷ y ∷ r) = x <> sep <> join sep (y ∷ r)

digit : ℕ → String
digit zero = "0"
digit (suc zero) = "1"
digit (suc (suc zero)) = "2"
digit (suc (suc (suc zero))) = "3"
digit (suc (suc (suc (suc zero)))) = "4"
digit (suc (suc (suc (suc (suc zero))))) = "5"
digit (suc (suc (suc (suc (suc (suc zero)))))) = "6"
digit (suc (suc (suc (suc (suc (suc (suc zero))))))) = "7"
digit (suc (suc (suc (suc (suc (suc (suc (suc zero)))))))) = "8"
digit _ = "9"

-- The digits of `n`, at most `fuel` of them.
digits : ℕ → ℕ → String
digits zero n = ""
digits (suc fuel) n =
    let rest = digits fuel (n / 10) in if ltb n 10 then digit n else rest <> digit (n % 10)

-- `n.to_string()` of an unsigned integer. A number has at most as many digits as it is, and one.
unfoldable pub decimal : ℕ → String
unfolding digits digit
decimal n = digits (suc n) n

-- `hay.starts_with(needle)`
starts_with : String → String → Bool
starts_with hay String.[] = true
starts_with String.[] (String.◌∷◌ n ns) = false
starts_with (String.◌∷◌ h hs) (String.◌∷◌ n ns) = (code h == code n) && starts_with hs ns

-- `hay.contains(needle)`
unfoldable pub contains : String → String → Bool
unfolding starts_with
contains String.[] needle = starts_with String.[] needle
contains (String.◌∷◌ h hs) needle = starts_with (String.◌∷◌ h hs) needle || contains hs needle

-- `char::is_whitespace`: the characters with the property `White_Space`
abbrev is_whitespace : ℕ → Bool
is_whitespace c =
    (leb 9 c && leb c 13)
    || (leb 8192 c && leb c 8202)
    || any (λ w. w == c) (32 ∷ 133 ∷ 160 ∷ 5760 ∷ 8232 ∷ 8233 ∷ 8239 ∷ 8287 ∷ 12288 ∷ [])

-- `s.trim().is_empty()`
unfoldable pub is_blank : String → Bool
is_blank String.[] = true
is_blank (String.◌∷◌ c s) = is_whitespace (code c) && is_blank s

pub str_eq_comm : (s t : String) → str_eq s t ≡ false → str_eq t s ≡ false
str_eq_comm s t h = ground (arith, eq_iff s t, eq_iff t s)
