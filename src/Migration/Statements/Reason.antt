-- ===== src/Migration/Statements/Reason.antt =====
-- The reason of a guard stands in its statement as one literal.
use Prim.Native.Char.{Char, code}
use text.Mathlib.TextLemmas.{cons-append, nil-append, append_assoc}
use text.Mathlib.TextEquality.{Char-path}
use toasty_driver_surreal.Prelude.{
  String, ◌<>◌, ◌≡◌, refl, ap, sym, ◌∙◌, true, false, Option, none, some, ◌==◌, ==_iff, Bool-cases,
  inl, inr, subst, if◌then◌else◌,
}
use toasty_driver_surreal.Text.{replace}
use toasty_driver_surreal.Text.Replace.{replace-append}
use toasty_driver_surreal.Migration.Statements.{manual_guard}

abbrev in_front : Char → Option (String × String) → Option (String × String)
in_front c none = none
in_front c (some (s, rest)) = some (String.◌∷◌ c s, rest)

-- The contents of a literal in single quotes, and the text behind it. A backslash takes the next
-- character as it is.
unfoldable pub read_literal : String → Option (String × String)
read_literal String.[] = none
read_literal (String.◌∷◌ c String.[]) =
    if code c == b'\'' then some (String.[], String.[]) else none
read_literal (String.◌∷◌ c (String.◌∷◌ d s)) = elim (code c == b'\'') [
  | true ↦ some (String.[], String.◌∷◌ d s)
  | false ↦ elim (code c == b'\\') [
    | true ↦ in_front d (read_literal s)
    | false ↦ in_front c (read_literal (String.◌∷◌ d s))
  ]
]

escaped : String → String
escaped s = replace b'\'' "\\'" (replace b'\\' "\\\\" s)

-- what one character of the reason becomes
piece : Char → String
piece c = replace b'\'' "\\'" (if code c == b'\\' then "\\\\" else String.◌∷◌ c String.[])

escaped-cons : (c : Char) (s : String) → escaped (String.◌∷◌ c s) ≡ piece c <> escaped s
unfolding escaped piece replace
escaped-cons c s = replace-append b'\'' "\\'" _ _

-- a character that is neither a quote nor a backslash
plain :
    (c : Char) (x : String)
    → (code c == b'\'') ≡ false
    → (code c == b'\\') ≡ false
    → read_literal (String.◌∷◌ c x) ≡ in_front c (read_literal x)
unfolding read_literal
plain c String.[] q b = rw q refl
plain c (String.◌∷◌ d x) q b = rw (q, b, read_literal) refl

-- a backslash and a quote are each behind a backslash
two :
    (c : Char) (x : String)
    → (String.◌∷◌ "\\" (String.◌∷◌ c String.[])) <> x ≡ String.◌∷◌ "\\" (String.◌∷◌ c x)
two c x = simp (cons-append, nil-append)

behind_slash :
    (c : Char) (x : String)
    → read_literal (String.◌∷◌ "\\" (String.◌∷◌ c x)) ≡ in_front c (read_literal x)
unfolding read_literal
behind_slash c x = refl

slash_piece : piece "\\" ≡ String.◌∷◌ "\\" (String.◌∷◌ "\\" String.[])
unfolding piece replace
slash_piece = refl

quote_piece : piece "'" ≡ String.◌∷◌ "\\" (String.◌∷◌ "'" String.[])
unfolding piece replace
quote_piece = refl

abbrev Reads : Char → Type 0
Reads c = (x : String) → read_literal (piece c <> x) ≡ in_front c (read_literal x)

slash-Reads : Reads "\\"
slash-Reads x = rw (slash_piece, two) (behind_slash "\\" x)

quote-Reads : Reads "'"
quote-Reads x = rw (quote_piece, two) (behind_slash "'" x)

plain_piece :
    (c : Char)
    → (code c == b'\'') ≡ false
    → (code c == b'\\') ≡ false
    → piece c ≡ String.◌∷◌ c String.[]
unfolding piece replace
plain_piece c q b = rw (b, replace, q, cons-append, nil-append) refl

all-Reads : (c : Char) → Reads c
all-Reads c = elim (Bool-cases (code c == b'\\')) [
  | inl b ↦ subst Reads (sym (Char-path c "\\" ((==_iff (code c) b'\\').0 b))) slash-Reads
  | inr b ↦ elim (Bool-cases (code c == b'\'')) [
    | inl q ↦ subst Reads (sym (Char-path c "'" ((==_iff (code c) b'\'').0 q))) quote-Reads
    | inr q ↦ λ x. rw (plain_piece c q b, cons-append, nil-append) (plain c x q b)
  ]
]

read_escaped :
    (s : String) → read_literal (escaped s <> String.◌∷◌ "'" String.[]) ≡ some (s, String.[])
unfolding read_literal escaped replace
read_escaped String.[] = refl
read_escaped (String.◌∷◌ c s) =
    rw (escaped-cons, append_assoc) (all-Reads c _ ∙ ap (in_front c) (read_escaped s))

-- Whatever names a guard's reason mentions, with any quotes and backslashes in them, its statement
-- is `THROW` of one literal that is read back as the reason after the fixed words, and the
-- statement ends where the literal does: no reason adds a statement of its own.
pub read_literal-manual_guard :
    (reason : String)
    → (body : String) × (manual_guard reason ≡ "THROW 'manual migration required: " <> body)
      × (read_literal body ≡ some (reason, ""))
unfolding manual_guard escaped
read_literal-manual_guard reason = (escaped reason <> "'", refl, read_escaped reason)
