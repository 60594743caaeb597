-- ===== src/Migration/Alter/Safe.antt =====
-- Which changes of a table are safe: an independent description of the tests of `render_alter_table`.
use mathlib.Core.Logic.{ite}
use toasty_driver_surreal.Prelude.{
  String, ◌++◌, ◌||◌, ◌==◌, length, find, Option, none, some, Bool, true, false, not, ◌&&◌, List,
  [], ◌∷◌, ◌≡◌, refl, Bool-cases, inl, inr, str_eq, if◌then◌else◌,
}
use toasty_driver_surreal.Schema.{ColumnId, same_column, Column, Table, Catalog}
use toasty_driver_surreal.Migration.Diff.{ColumnDiff, IndexDiff}
use toasty_driver_surreal.Migration.Alter.{
  StmtType-discrete, DbType-discrete, find_altered, first_of_two, mapped_column, key_column_changed,
  any_changed, type_changed, primary_key_changed,
}

abbrev pub all {ℓ} : {A : Type ℓ} → (A → Bool) → List A → Bool
all f [] = true
all f (x ∷ xs) = f x && all f xs

-- the same type and the same storage type
abbrev pub same_types : Column → Column → Bool
same_types p n =
    ite (StmtType-discrete p.ty n.ty) (ite (DbType-discrete p.storage_ty n.storage_ty) true false)
      false

-- no change of a type, and no change that is not known
abbrev pub safe_column : ColumnDiff → Bool
safe_column (ColumnDiff.alter previous next) = same_types previous next
safe_column ColumnDiff.other = false
safe_column _ = true

abbrev pub safe_index : IndexDiff → Bool
safe_index IndexDiff.other = false
safe_index _ = true

-- what a column may have become: the columns that the difference alters it to, and then those of its
-- name in the next table
abbrev pub altered_to : ColumnId → List ColumnDiff → List Column
altered_to id [] = []
altered_to id (ColumnDiff.alter p n ∷ rest) =
    if same_column p.id id then n ∷ altered_to id rest else altered_to id rest
altered_to id (_ ∷ rest) = altered_to id rest

abbrev pub named : String → List Column → List Column
named name [] = []
named name (c ∷ cs) = if str_eq c.name name then c ∷ named name cs else named name cs

-- the first of them is the key column of the next table, and has the same types
abbrev pub key_kept : List Column → Column → Column → Bool
key_kept [] p n = false
key_kept (became ∷ rest) p n = same_column became.id n.id && same_types p became

-- the columns of the key, place by place
abbrev pub keys_kept : Table → List ColumnDiff → List Column → List Column → Bool
keys_kept next columns (p ∷ ps) (n ∷ ns) =
    key_kept (altered_to p.id columns ++ named p.name next.columns) p n
    && keys_kept next columns ps ns
keys_kept next columns _ _ = true

-- The primary key keeps its columns, in their order, and their types.
abbrev pub key_is_kept : Catalog → Table → Table → List ColumnDiff → Bool
key_is_kept cat previous next columns =
    (length previous.primary_key == length next.primary_key)
    && keys_kept next columns (cat.primary_key_columns previous) (cat.primary_key_columns next)

-- The key is kept; no column changes its type;
-- and no change is unknown.
abbrev pub is_safe : Catalog → Table → Table → List ColumnDiff → List IndexDiff → Bool
is_safe cat previous next columns indices =
    key_is_kept cat previous next columns && (all safe_column columns && all safe_index indices)

abbrev first_of : List Column → Option Column
first_of [] = none
first_of (c ∷ cs) = some c

-- the code's tests are those
find_altered-altered_to :
    (columns : List ColumnDiff) (id : ColumnId)
    → find_altered columns id ≡ first_of (altered_to id columns)
unfolding find_altered
find_altered-altered_to [] id = refl
find_altered-altered_to (ColumnDiff.alter p n ∷ rest) id = elim (Bool-cases (same_column p.id id)) [
  | inl e ↦ rw e refl
  | inr e ↦ rw e (find_altered-altered_to rest id)
]
find_altered-altered_to (ColumnDiff.add c ∷ rest) id = find_altered-altered_to rest id
find_altered-altered_to (ColumnDiff.drop c ∷ rest) id = find_altered-altered_to rest id
find_altered-altered_to (ColumnDiff.other ∷ rest) id = find_altered-altered_to rest id

either_differs :
    {A B : Type 0} (x : Dec A) (y : Dec B)
    → (ite x false true || ite y false true) ≡ not (ite x (ite y true false) false)
either_differs (yes a) (yes b) = refl
either_differs (yes a) (no b) = refl
either_differs (no a) y = refl

pub type_changed-same_types : (p n : Column) → type_changed p n ≡ not (same_types p n)
unfolding type_changed
type_changed-same_types p n =
    either_differs (StmtType-discrete p.ty n.ty) (DbType-discrete p.storage_ty n.storage_ty)

find-named :
    (name : String) (cs : List Column)
    → find (λ c. str_eq c.name name) cs ≡ first_of (named name cs)
find-named name [] = refl
find-named name (c ∷ cs) = elim (Bool-cases (str_eq c.name name)) [
  | inl e ↦ rw e refl
  | inr e ↦ rw e (find-named name cs)
]

first_of-append :
    (cs ds : List Column) → first_of_two (first_of cs) (first_of ds) ≡ first_of (cs ++ ds)
first_of-append [] ds = refl
first_of-append (c ∷ cs) ds = refl

mapped_column-first_of :
    (next : Table) (columns : List ColumnDiff) (p : Column)
    → mapped_column next columns p ≡ first_of (altered_to p.id columns ++ named p.name next.columns)
unfolding mapped_column
mapped_column-first_of next columns p =
    rw (find_altered-altered_to columns p.id, find-named p.name next.columns)
      (first_of-append (altered_to p.id columns) (named p.name next.columns))

key_column_changed-key_kept :
    (became : List Column) (p n : Column)
    → key_column_changed (first_of became) p n ≡ not (key_kept became p n)
unfolding key_column_changed
key_column_changed-key_kept [] p n = refl
key_column_changed-key_kept (c ∷ cs) p n = elim (Bool-cases (same_column c.id n.id)) [
  | inl e ↦ rw e (type_changed-same_types p c)
  | inr e ↦ rw e refl
]

not_and : (a b : Bool) → (not a || not b) ≡ not (a && b)
not_and true b = refl
not_and false b = refl

any_changed-keys_kept :
    (next : Table) (columns : List ColumnDiff) (ps ns : List Column)
    → any_changed next columns ps ns ≡ not (keys_kept next columns ps ns)
unfolding any_changed
any_changed-keys_kept next columns [] ns = refl
any_changed-keys_kept next columns (p ∷ ps) [] = refl
any_changed-keys_kept next columns (p ∷ ps) (n ∷ ns) =
    let became = altered_to p.id columns ++ named p.name next.columns in
    rw
      (
        mapped_column-first_of next columns p,
        key_column_changed-key_kept became p n,
        any_changed-keys_kept next columns ps ns,
      )
      (not_and (key_kept became p n) (keys_kept next columns ps ns))

pub primary_key_changed-key_is_kept :
    (cat : Catalog) (previous next : Table) (columns : List ColumnDiff)
    → primary_key_changed cat previous next columns ≡ not (key_is_kept cat previous next columns)
unfolding primary_key_changed
primary_key_changed-key_is_kept cat previous next columns =
    rw
      (any_changed-keys_kept next columns (cat.primary_key_columns previous)
        (cat.primary_key_columns next))
      (not_and (length previous.primary_key == length next.primary_key)
        (keys_kept next columns (cat.primary_key_columns previous) (cat.primary_key_columns next)))
