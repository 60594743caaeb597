-- ===== src/Text/Replace.antt =====
-- `replace` goes through a concatenation.
use text.Mathlib.TextLemmas.{cons-append, nil-append, append_assoc}
use toasty_driver_surreal.Prelude.{ℕ, String, ◌<>◌, ◌≡◌, refl, sym}
use toasty_driver_surreal.Text.{replace}

pub replace-append :
    (from : ℕ) (to s t : String) → replace from to (s <> t) ≡ replace from to s <> replace from to t
unfolding replace
replace-append from to String.[] t = rw (nil-append, nil-append) refl
replace-append from to (String.◌∷◌ c s) t =
    rw (cons-append, replace-append from to s t) (sym (append_assoc _ _ _))
