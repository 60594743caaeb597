-- ===== src/Op/Upsert/Sets.antt =====
-- The clauses of the shared mutations of an upsert are the numbered texts of their changes, and the
-- binds are the changes' values.
use mathlib.Core.List.{append_assoc, append-nil}
use toasty_driver_surreal.Prelude.{
  suc, String, ◌<>◌, List, [], ◌∷◌, ◌++◌, Option, none, some, ◌≡◌, refl, ap, sym, ◌∙◌, length,
  Bool-cases, inl, inr,
}
use toasty_driver_surreal.Error.{Result, ok, err, ◌>>=◌}
use toasty_driver_surreal.Schema.{Column, Table, Catalog}
use toasty_driver_surreal.Value.{Value, SurValue, is_null}
use toasty_driver_surreal.Value.Codec.{Codec}
use toasty_driver_surreal.Value.Encode.{to_surreal_for_column}
use toasty_driver_surreal.Expr.{Expr, Binds, push, escape_ident}
use toasty_driver_surreal.Expr.Fragment.{number_onto}
use toasty_driver_surreal.Expr.Fragment.Numbering.{param}
use toasty_driver_surreal.Expr.Fragment.Refines.{length-number_onto, number_onto-append}
use toasty_driver_surreal.Op.Write.Keys.{length-snoc}
use toasty_driver_surreal.Op.Write.Assign.{
  Assignment, Assignments, assignment_to, append_list, with_placeholder, clear_or_set, set_value,
}
use toasty_driver_surreal.Op.Write.Mutations.{
  default_placeholder, with_default, unsupported_mutation, render_shared_mutation, shared_sets,
}
use toasty_driver_surreal.Op.Upsert.Meaning.{
  Change, Changes, print, values, numbered, texts, all_values, default_of, change_of,
  shared_changes, with_two, listed,
}

-- one change put to work behind binds
abbrev pub emitted : String → Binds → Change SurValue → String × Binds
emitted name binds c =
    (print (escape_ident name) (numbered (length binds) c), number_onto binds (values c))

module _ (C : Codec) (debug_assignment : Assignment → String) where
  -- what a change of one value, or of two, comes to behind binds
  one :
      (stored : Result SurValue) (name : String) (binds : Binds) (text : String → String)
      (make : SurValue → Change SurValue)
      → ((v : SurValue)
          → ◌≡◌ {A = String × Binds}
              (text ("$" <> param (length binds)), number_onto binds (v ∷ []))
              (emitted name binds (make v)))
      → with_placeholder C stored binds text
        ≡ ((stored >>= λ v. ok (make v)) >>= λ c. ok (emitted name binds c))
  unfolding push number_onto
  one (err e) name binds text make h = refl
  one (ok v) name binds text make h = ap ok (h v)

  two :
      (first second : Result SurValue) (name : String) (binds : Binds)
      (text : String → String → String) (make : SurValue → SurValue → Change SurValue)
      → ((d v : SurValue)
          → ◌≡◌ {A = String × Binds}
              (
                text ("$" <> param (length binds)) ("$" <> param (suc (length binds))),
                number_onto binds (d ∷ v ∷ []),
              )
              (emitted name binds (make d v)))
      → (with_placeholder C first binds (λ p. p) >>= λ (d, after).
          with_placeholder C second after (text d))
        ≡ ((first >>= λ d. second >>= λ v. ok (make d v)) >>= λ c. ok (emitted name binds c))
  unfolding push number_onto
  two (err e) second name binds text make h = refl
  two (ok d) (err e) name binds text make h = refl
  two (ok d) (ok v) name binds text make h =
      let first : String × SurValue = (param (length binds), d) in
      ap
        (λ n. ok (
          text ("$" <> param (length binds)) ("$" <> param n),
          (binds ++ first ∷ []) ++ (param n, v) ∷ [],
        ))
        (sym (length-snoc binds first))
      ∙ ap
          (λ n. ok (
            text ("$" <> param (length binds)) ("$" <> param (suc (length binds))),
            (binds ++ first ∷ []) ++ (param n, v) ∷ [],
          ))
          (length-snoc binds first)
      ∙ ap ok (h d v)

  default_placeholder_lem :
      (column : Column) (default : Option Assignment) (binds : Binds)
      → default_placeholder C debug_assignment column default binds
        ≡ with_placeholder C (default_of C column default) binds (λ p. p)
  unfolding default_placeholder
  default_placeholder_lem column none binds = refl
  default_placeholder_lem column (some (Assignment.set (Expr.value v))) binds = refl
  default_placeholder_lem column (some _) binds = refl

  with_default-two :
      (column : Column) (default : Option Assignment) (stored : Result SurValue) (binds : Binds)
      (text : String → String → String) (make : SurValue → SurValue → Change SurValue)
      → ((d v : SurValue)
          → ◌≡◌ {A = String × Binds}
              (
                text ("$" <> param (length binds)) ("$" <> param (suc (length binds))),
                number_onto binds (d ∷ v ∷ []),
              )
              (emitted column.name binds (make d v)))
      → with_default C debug_assignment column default stored binds text
        ≡ (with_two C column default stored make >>= λ c. ok (emitted column.name binds c))
  unfolding with_default
  with_default-two column default stored binds text make h =
      ap (λ r. r >>= λ (d, after). with_placeholder C stored after (text d))
        (default_placeholder_lem column default binds)
      ∙ two (default_of C column default) stored column.name binds text make h

  append_list-listed :
      (v : Value) (column : Column)
      → append_list C v column ≡ to_surreal_for_column C (listed C v) column
  unfolding append_list
  append_list-listed (Value.list vs) column = refl
  append_list-listed _ column = refl

  -- one shared mutation
  render_shared_mutation-emitted :
      (column : Column) (a : Assignment) (default : Option Assignment) (binds : Binds)
      → render_shared_mutation C debug_assignment column a default binds
        ≡ (change_of C debug_assignment column a default >>= λ c. ok (emitted column.name binds c))
  unfolding render_shared_mutation set_value clear_or_set change_of unsupported_mutation number_onto
  render_shared_mutation-emitted column (Assignment.set (Expr.value v)) default binds =
      elim (Bool-cases (is_null v)) [
        | inl e ↦ rw (e, change_of) refl
        | inr e ↦
            rw (e, change_of)
              (one (to_surreal_for_column C v column) column.name binds
                (λ p. print (escape_ident column.name) (Change.put p)) Change.put (λ s. refl))
      ]
  render_shared_mutation-emitted column (Assignment.add (Expr.value v)) default binds =
      with_default-two column default (to_surreal_for_column C v column) binds
        (λ d p. print (escape_ident column.name) (Change.plus d p)) Change.plus (λ d s. refl)
  render_shared_mutation-emitted column (Assignment.subtract (Expr.value v)) default binds =
      with_default-two column default (to_surreal_for_column C v column) binds
        (λ d p. print (escape_ident column.name) (Change.minus d p)) Change.minus (λ d s. refl)
  render_shared_mutation-emitted column (Assignment.append (Expr.value v)) default binds =
      ap
        (λ stored.
          with_default C debug_assignment column default stored binds
            (λ d p. print (escape_ident column.name) (Change.concat d p)))
        (append_list-listed v column)
      ∙ with_default-two column default (to_surreal_for_column C (listed C v) column) binds
          (λ d p. print (escape_ident column.name) (Change.concat d p)) Change.concat (λ d s. refl)
  render_shared_mutation-emitted column _ default binds = refl

  -- what a list of changes comes to behind some texts and binds
  abbrev pub all_emitted : List String × Binds → Changes → List String × Binds
  all_emitted (sets, binds) cs =
      (sets ++ texts (length binds) cs, number_onto binds (all_values cs))

  pub all_emitted-nothing : (made : List String × Binds) → made ≡ all_emitted made []
  unfolding number_onto
  all_emitted-nothing (sets, binds) = ap (λ s. (s, binds)) (sym (append-nil sets))

  pub all_emitted-cons :
      (sets : List String) (binds : Binds) (name : String) (c : Change SurValue) (cs : Changes)
      → all_emitted (sets ++ (emitted name binds c).0 ∷ [], (emitted name binds c).1) cs
        ≡ all_emitted (sets, binds) ((name, c) ∷ cs)
  all_emitted-cons sets binds name c cs =
      rw (append_assoc, length-number_onto, number_onto-append) refl

  -- what is made of the changes, when a change stands before them
  pub before :
      (r : Result Changes) (more : Changes → Changes) (made start : List String × Binds)
      → ((cs : Changes) → all_emitted made cs ≡ all_emitted start (more cs))
      → (r >>= λ cs. ok (all_emitted made cs))
        ≡ ((r >>= λ cs. ok (more cs)) >>= λ cs. ok (all_emitted start cs))
  before (err e) more made start h = refl
  before (ok cs) more made start h = ap ok (h cs)

  module _ (catalog : Catalog) (table : Table) (defaults : Assignments) where
    -- the shared assignments behind one that is emitted
    abbrev SharedEmitted : Assignments → List String × Binds → Type 0
    SharedEmitted shared made =
        shared_sets C debug_assignment catalog table defaults shared made ≡ (
          shared_changes C debug_assignment catalog table defaults shared >>= λ cs.
          ok (all_emitted made cs))

    shared_rest :
        (c : Result (Change SurValue)) (name : String) (rest : Assignments) (sets : List String)
        (binds : Binds)
        → ((made : List String × Binds) → SharedEmitted rest made)
        → ((c >>= λ c. ok (emitted name binds c)) >>= λ (text, after).
            shared_sets C debug_assignment catalog table defaults rest (sets ++ text ∷ [], after))
          ≡ ((c >>= λ c. shared_changes C debug_assignment catalog table defaults rest >>= λ cs.
                ok ((name, c) ∷ cs))
              >>= λ cs. ok (all_emitted (sets, binds) cs))
    shared_rest (err e) name rest sets binds h = refl
    shared_rest (ok c) name rest sets binds h =
        let made = emitted name binds c in
        h (sets ++ made.0 ∷ [], made.1)
        ∙ before (shared_changes C debug_assignment catalog table defaults rest)
            (λ cs. (name, c) ∷ cs) (sets ++ made.0 ∷ [], made.1) (sets, binds)
            (all_emitted-cons sets binds name c)

    pub shared_sets-emitted :
        (shared : Assignments) (made : List String × Binds) → SharedEmitted shared made
    unfolding shared_sets shared_changes
    shared_sets-emitted [] made = ap ok (all_emitted-nothing made)
    shared_sets-emitted ((projection, a) ∷ rest) (sets, binds) =
        let column = catalog.resolve table projection in
        rw (render_shared_mutation-emitted column a (assignment_to defaults projection) binds) (
          shared_rest (change_of C debug_assignment column a (assignment_to defaults projection))
            column.name rest sets binds (shared_sets-emitted rest))
