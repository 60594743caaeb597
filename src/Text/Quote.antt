-- ===== src/Text/Quote.antt =====
-- Quoting: a text between delimiters, with each delimiter inside it doubled, is read back whole and
-- ends where it was ended.
use Prim.Native.Char.{Char, code}
use text.Mathlib.TextLemmas.{cons-append, nil-append}
use text.Mathlib.TextEquality.{Char-path}
use toasty_driver_surreal.Prelude.{
  sym, ==_iff, ==-refl, ℕ, String, ◌<>◌, ◌≡◌, refl, ap, ◌∙◌, true, false, Option, none, some, ◌==◌,
  Bool-cases, inl, inr, if◌then◌else◌,
}
use toasty_driver_surreal.Text.{replace}

abbrev in_front : Char → Option (String × String) → Option (String × String)
in_front c none = none
in_front c (some (s, rest)) = some (String.◌∷◌ c s, rest)

-- What stands up to the closing delimiter `q`, and the rest behind it. A doubled `q` stands for
-- one.
unfoldable pub read_quoted : ℕ → String → Option (String × String)
read_quoted q String.[] = none
read_quoted q (String.◌∷◌ c String.[]) = if code c == q then some (String.[], String.[]) else none
read_quoted q (String.◌∷◌ c (String.◌∷◌ d s)) = elim (code c == q) [
  | false ↦ in_front c (read_quoted q (String.◌∷◌ d s))
  | true ↦ elim (code d == q) [
    | true ↦ in_front c (read_quoted q s)
    | false ↦ some (String.[], String.◌∷◌ d s)
  ]
]

-- the text does not begin with `q`
abbrev pub StartsOther : ℕ → String → Type 0
StartsOther q String.[] = Unit
StartsOther q (String.◌∷◌ c s) = (code c == q) ≡ false

pub unroll_one :
    (c : Char) (r t : String) → (String.◌∷◌ c String.[] <> r) <> t ≡ String.◌∷◌ c (r <> t)
unroll_one c r t = rw (cons-append, nil-append, cons-append) refl

module _ (q : Char) where
  abbrev doubled : String → String
  doubled s = replace (code q) (String.◌∷◌ q (String.◌∷◌ q String.[])) s

  ends :
      (rest : String)
      → StartsOther (code q) rest
      → read_quoted (code q) (String.◌∷◌ q rest) ≡ some (String.[], rest)
  unfolding read_quoted
  ends String.[] h = rw (==-refl (code q)) refl
  ends (String.◌∷◌ c s) h = rw (==-refl (code q), read_quoted) (rw (h, read_quoted) refl)

  read_other :
      (c : Char) (x : String)
      → (code c == code q) ≡ false
      → read_quoted (code q) (String.◌∷◌ c x) ≡ in_front c (read_quoted (code q) x)
  unfolding read_quoted
  read_other c String.[] h = rw h refl
  read_other c (String.◌∷◌ d x) h = rw (h, read_quoted) refl

  read_double :
      (x : String)
      → read_quoted (code q) (String.◌∷◌ q (String.◌∷◌ q x)) ≡ in_front q (read_quoted (code q) x)
  unfolding read_quoted
  read_double x = rw (==-refl (code q), read_quoted) (rw (==-refl (code q)) refl)

  unroll_two :
      (r t : String)
      → (String.◌∷◌ q (String.◌∷◌ q String.[]) <> r) <> t ≡ String.◌∷◌ q (String.◌∷◌ q (r <> t))
  unroll_two r t = simp (cons-append, nil-append)

  -- A text whose delimiters are doubled, closed by a delimiter and followed by anything that does
  -- not begin with one, is read back as it was, and reading stops at the closing delimiter.
  pub read_quoted-doubled :
      (s rest : String)
      → StartsOther (code q) rest
      → read_quoted (code q) (doubled s <> String.◌∷◌ q rest) ≡ some (s, rest)
  unfolding replace
  read_quoted-doubled String.[] rest h = rw nil-append (ends rest h)
  read_quoted-doubled (String.◌∷◌ c s) rest h = elim (Bool-cases (code c == code q)) [
    | inr e ↦
        rw (e, unroll_one c (doubled s))
          (read_other c _ e ∙ ap (in_front c) (read_quoted-doubled s rest h))
    | inl e ↦
        rw (e, unroll_two (doubled s))
          (read_double _
            ∙ ap (in_front q) (read_quoted-doubled s rest h)
            ∙ ap (λ (d : Char). some (String.◌∷◌ d s, rest))
                (sym (Char-path c q ((==_iff (code c) (code q)).0 e))))
  ]
