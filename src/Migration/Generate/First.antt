-- ===== src/Migration/Generate/First.antt =====
-- What a generated migration begins with, and in which order the tables' statements stand.
use Prim.Native.Char.{code}
use text.Mathlib.TextLemmas.{cons-append}
use toasty_driver_surreal.Prelude.{
  String, ◌<>◌, Bool, true, false, not, ◌&&◌, List, [], ◌∷◌, ◌++◌, ◌≡◌, refl, ap, ◌∙◌, Bool-cases,
  inl, inr, str_eq, All, All-append, is_empty, ◌==◌, if◌then◌else◌,
}
use toasty_driver_surreal.Schema.{Table, Catalog}
use toasty_driver_surreal.Migration.Diff.{ColumnDiff, IndexDiff, TableDiff}
use toasty_driver_surreal.Migration.Statements.{push_unique, contains_text, manual_guard}
use toasty_driver_surreal.Migration.Alter.{Plan, ordered, alter_plan, render_alter_table}
use toasty_driver_surreal.Migration.Alter.Guards.{unguarded-alter_plan}
use toasty_driver_surreal.Migration.Alter.Safe.{is_safe}
use toasty_driver_surreal.Migration.Alter.Phases.{Begins, IsPhased, alter_plan-IsPhased}
use toasty_driver_surreal.Migration.Generate.{table_step, table_steps, or_nothing, generate}

-- the statement throws: it begins with a `T`, as no other statement of a migration does
unfoldable pub is_throw : String → Bool
is_throw String.[] = false
is_throw (String.◌∷◌ c s) = code c == b'T'

abbrev pub first : List String → String
first [] = ""
first (s ∷ ss) = s

abbrev Quiet : String → Type 0
Quiet s = is_throw s ≡ false

throws : (s : String) → Begins "THROW 'manual migration required: " s → is_throw s ≡ true
unfolding is_throw
throws s (rest, e) = rw (e, cons-append) refl

guard_throws : (reason : String) → is_throw (manual_guard reason) ≡ true
unfolding manual_guard
guard_throws reason = throws _ (_, refl)

Quiet-removal : (s : String) → Begins "REMOVE INDEX " s → Quiet s
unfolding is_throw
Quiet-removal s (rest, e) = rw (e, cons-append) refl

Quiet-definition : (s : String) → Begins "DEFINE INDEX" s → Quiet s
unfolding is_throw
Quiet-definition s (rest, e) = rw (e, cons-append) refl

Quiet-update : (s : String) → Begins "UPDATE " s → Quiet s
unfolding is_throw
Quiet-update s (rest, e) = rw (e, cons-append) refl

All-map {ℓ κ μ} :
    {A : Type ℓ} {P : A → Type κ} {Q : A → Type μ}
    → ((a : A) → P a → Q a)
    → (xs : List A) → All P xs
    → All Q xs
All-map f [] h = tt
All-map f (x ∷ xs) h = (f x h.0, All-map f xs h.1)

first_throws :
    (g rest : List String)
    → All (Begins "THROW 'manual migration required: ") g
    → is_empty g ≡ false
    → is_throw (first (or_nothing (g ++ rest))) ≡ true
unfolding or_nothing
first_throws [] rest h e = cc
first_throws (s ∷ g) rest h e = throws s h.0

first-Quiet : (ss : List String) → All Quiet ss → Quiet (first (or_nothing ss))
unfolding or_nothing is_throw
first-Quiet [] h = refl
first-Quiet (s ∷ ss) h = h.0

no_guards : (plan : Plan) → is_empty plan.guards ≡ true → plan.guards ≡ []
no_guards plan h = empty_list plan.guards h
  where
    empty_list : (xs : List String) → is_empty xs ≡ true → xs ≡ []
    empty_list [] h = refl
    empty_list (x ∷ xs) h = cc

first-ordered :
    (plan : Plan)
    → IsPhased plan
    → is_throw (first (or_nothing (ordered plan))) ≡ not (is_empty plan.guards)
first-ordered plan (g, r, d, u) = elim (Bool-cases (is_empty plan.guards)) [
  | inr e ↦ rw e (first_throws plan.guards _ g.0 e)
  | inl e ↦
      rw (e, no_guards plan e)
        (first-Quiet _ (
          All-append Quiet plan.index_removals _ (All-map Quiet-removal _ r.0) (
            All-append Quiet plan.index_definitions _ (All-map Quiet-definition _ d.0)
              (All-map Quiet-update _ u))))
]

-- The migration of one altered table begins with a statement that throws exactly when the table is
-- renamed or the change is not safe; a migration that does not begin so has a first statement that
-- does not throw.
pub generate-alter :
    (cat : Catalog) (previous next : Table) (columns : List ColumnDiff) (indices : List IndexDiff)
    → is_throw (first (generate cat (TableDiff.alter previous next columns indices ∷ [])))
      ≡ not (str_eq previous.name next.name && is_safe cat previous next columns indices)
unfolding generate table_steps table_step render_alter_table push_unique or_nothing
generate-alter cat previous next columns indices =
    elim (Bool-cases (str_eq previous.name next.name)) [
      | inr e ↦ rw e (guard_throws ("table rename from " <> previous.name <> " to " <> next.name))
      | inl e ↦ rw e (
          first-ordered (alter_plan cat previous next columns indices)
            (alter_plan-IsPhased cat previous next columns indices)
          ∙ ap not (unguarded-alter_plan cat previous next columns indices))
    ]

-- the statements of the difference of one table by itself
abbrev pub alone : Catalog → TableDiff → List String
alone cat t = table_steps cat [] (t ∷ [])

-- the whole difference is replaced by one guard: the table is renamed, or the change is not known
abbrev pub is_guarded : TableDiff → Bool
is_guarded (TableDiff.alter previous next columns indices) = not (str_eq previous.name next.name)
is_guarded TableDiff.other = true
is_guarded _ = false

-- table after table, each behind the statements before, but for a guard that is among them
abbrev pub one_after_another : Catalog → List String → List TableDiff → List String
one_after_another cat before [] = before
one_after_another cat before (t ∷ ts) =
    one_after_another cat
      (if is_guarded t && contains_text before (first (alone cat t))
        then before
        else before ++ alone cat t)
      ts

table_step_lem :
    (cat : Catalog) (ss : List String) (t : TableDiff)
    → table_step cat ss t
      ≡ (if is_guarded t && contains_text ss (first (alone cat t)) then ss else ss ++ alone cat t)
unfolding table_steps table_step render_alter_table push_unique
table_step_lem cat ss (TableDiff.create table) = refl
table_step_lem cat ss (TableDiff.drop table) = refl
table_step_lem cat ss (TableDiff.alter previous next columns indices) =
    elim (Bool-cases (str_eq previous.name next.name)) [ inr e ↦ rw e refl | inl e ↦ rw e refl ]
table_step_lem cat ss TableDiff.other = refl

table_steps-one_after_another :
    (cat : Catalog) (ss : List String) (ts : List TableDiff)
    → table_steps cat ss ts ≡ one_after_another cat ss ts
unfolding table_steps
table_steps-one_after_another cat ss [] = refl
table_steps-one_after_another cat ss (t ∷ ts) =
    table_steps-one_after_another cat (table_step cat ss t) ts
    ∙ ap (λ before. one_after_another cat before ts) (table_step_lem cat ss t)

-- The statements of a migration are those of its tables, each as it is generated by itself, one
-- table after another in the order of the difference: nothing is dropped, moved or put between. Only
-- the guard that stands for a whole table, one that is renamed or whose change is not known, is left
-- out when it is there already. So a guard of a later table is behind the changes of earlier ones.
pub table_steps-order :
    (cat : Catalog) (ts : List TableDiff) → table_steps cat [] ts ≡ one_after_another cat [] ts
table_steps-order cat ts = table_steps-one_after_another cat [] ts
