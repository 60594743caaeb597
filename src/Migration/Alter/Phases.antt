-- ===== src/Migration/Alter/Phases.antt =====
-- What stands in the four lists of an altered table's plan.
use toasty_driver_surreal.Prelude.{
  String, ◌<>◌, Bool, true, false, ◌||◌, List, [], ◌∷◌, ◌++◌, ◌≡◌, refl, sym, Bool-cases, inl, inr,
  str_eq, eq_iff, if◌then◌else◌, arith, All, All-append,
}
use toasty_driver_surreal.Schema.{Column, Index, Table, Catalog}
use toasty_driver_surreal.Migration.Diff.{ColumnDiff, IndexDiff}
use toasty_driver_surreal.Migration.Statements.{
  push_unique, contains_text, manual_guard, remove_index_statement, define_index_statement,
  unset_statement, move_statement,
}
use toasty_driver_surreal.Migration.Alter.{
  Plan, empty_plan, primary_key_changed, guard, removal, definition, guard_type, rename,
  column_step, column_steps, remove_if_secondary, define_if_secondary, index_step, index_steps,
  remove_touching, define_touching, rebuild_indices, guard_key, alter_plan,
}

-- the statement begins with a text
abbrev pub Begins : String → String → Type 0
Begins start statement = (rest : String) × (statement ≡ start <> rest)

-- no statement twice
abbrev pub Distinct : List String → Type 0
Distinct [] = Unit
Distinct (s ∷ ss) = (contains_text ss s ≡ false) × Distinct ss

not_contained :
    (xs : List String) (s x : String)
    → contains_text xs x ≡ false
    → str_eq x s ≡ false
    → contains_text (xs ++ s ∷ []) x ≡ false
not_contained [] s x h e = ground (arith, eq_iff x s, eq_iff s x)
not_contained (y ∷ xs) s x h e = elim (Bool-cases (str_eq y x)) [
  | inl c ↦ absurd (true_false (sym (rw c at h)))
  | inr c ↦ rw c (not_contained xs s x (rw c at h) e)
]
  where
    true_false : false ≡ true → ⊥
    true_false h = cc

or_false : (a b : Bool) → (a || b) ≡ false → (a ≡ false) × (b ≡ false)
or_false false false h = (refl, refl)
or_false false true h = (refl, h)
or_false true b h = cc

Distinct-append :
    (xs : List String) (s : String)
    → Distinct xs
    → contains_text xs s ≡ false
    → Distinct (xs ++ s ∷ [])
Distinct-append [] s d h = (refl, tt)
Distinct-append (x ∷ xs) s d h =
    let (e, k) = or_false (str_eq x s) (contains_text xs s) h in
    (not_contained xs s x d.0 e, Distinct-append xs s d.1 k)

-- the statements of one phase: each begins as it should, and none is there twice
abbrev pub IsPhase : String → List String → Type 0
IsPhase start statements = All (Begins start) statements × Distinct statements

IsPhase-push_unique :
    (start : String) (xs : List String) (s : String)
    → IsPhase start xs
    → Begins start s
    → IsPhase start (push_unique xs s)
unfolding push_unique
IsPhase-push_unique start xs s h b = elim (Bool-cases (contains_text xs s)) [
  | inl e ↦ rw e h
  | inr e ↦ rw e (All-append (Begins start) xs (s ∷ []) h.0 (b, tt), Distinct-append xs s h.1 e)
]

-- The statements of each kind stand in their own list: guards throw, then indices are removed,
-- then indices are defined, then rows are updated; the first three lists hold nothing twice.
abbrev pub IsPhased : Plan → Type 0
IsPhased plan =
    IsPhase "THROW 'manual migration required: " plan.guards
    × IsPhase "REMOVE INDEX " plan.index_removals
    × IsPhase "DEFINE INDEX" plan.index_definitions
    × All (Begins "UPDATE ") plan.data_changes

IsPhased-guard : (plan : Plan) (reason : String) → IsPhased plan → IsPhased (guard plan reason)
unfolding guard manual_guard
IsPhased-guard plan reason (g, r, d, u) =
    (IsPhase-push_unique _ plan.guards (manual_guard reason) g (_, refl), r, d, u)

IsPhased-removal :
    (plan : Plan) (table : Table) (index : Index)
    → IsPhased plan
    → IsPhased (removal plan (remove_index_statement table index))
unfolding removal remove_index_statement
IsPhased-removal plan table index (g, r, d, u) =
    (g, IsPhase-push_unique _ plan.index_removals _ r (_, refl), d, u)

IsPhased-definition :
    (plan : Plan) (cat : Catalog) (table : Table) (index : Index)
    → IsPhased plan
    → IsPhased (definition plan (define_index_statement cat table index false))
unfolding definition define_index_statement
IsPhased-definition plan cat table index (g, r, d, u) =
    (g, r, IsPhase-push_unique _ plan.index_definitions _ d (_, refl), u)

unset-Begins : (table : Table) (c : Column) → Begins "UPDATE " (unset_statement table c)
unfolding unset_statement
unset-Begins table c = (_, refl)

move-Begins : (table : Table) (p n : Column) → Begins "UPDATE " (move_statement table p n)
unfolding move_statement
move-Begins table p n = (_, refl)

-- either branch of a test
IsPhased-if : (b : Bool) (p q : Plan) → IsPhased p → IsPhased q → IsPhased (if b then p else q)
IsPhased-if true p q hp hq = hp
IsPhased-if false p q hp hq = hq

module _ (cat : Catalog) (previous next : Table) where
  IsPhased-rename :
      (plan : Plan) (p n : Column) → IsPhased plan → IsPhased (rename cat previous next plan p n)
  unfolding rename
  IsPhased-rename plan p n h =
      IsPhased-if _ _ plan
        (
          h.0,
          h.1,
          h.2,
          All-append (Begins "UPDATE ") plan.data_changes _ h.3
              (move-Begins next p n, (unset-Begins next p, tt)),
        )
        h

  IsPhased-column_step :
      (plan : Plan) (c : ColumnDiff)
      → IsPhased plan
      → IsPhased (column_step cat previous next plan c)
  unfolding column_step guard_type
  IsPhased-column_step plan (ColumnDiff.add column) h = h
  IsPhased-column_step plan (ColumnDiff.drop column) h =
      IsPhased-if _ _ plan
        (
          h.0,
          h.1,
          h.2,
          All-append (Begins "UPDATE ") plan.data_changes _ h.3 (unset-Begins next column, tt),
        )
        h
  IsPhased-column_step plan (ColumnDiff.alter p n) h =
      IsPhased-rename _ p n (IsPhased-if _ _ plan (IsPhased-guard plan _ h) h)
  IsPhased-column_step plan ColumnDiff.other h = IsPhased-guard plan _ h

  IsPhased-column_steps :
      (cs : List ColumnDiff) (plan : Plan)
      → IsPhased plan
      → IsPhased (column_steps cat previous next plan cs)
  unfolding column_steps
  IsPhased-column_steps [] plan h = h
  IsPhased-column_steps (c ∷ cs) plan h = IsPhased-column_steps cs _ (IsPhased-column_step plan c h)

  IsPhased-remove :
      (plan : Plan) (i : Index)
      → IsPhased plan
      → IsPhased (remove_if_secondary cat previous next plan i)
  unfolding remove_if_secondary
  IsPhased-remove plan i h = IsPhased-if _ _ plan (IsPhased-removal plan previous i h) h

  IsPhased-define :
      (plan : Plan) (i : Index)
      → IsPhased plan
      → IsPhased (define_if_secondary cat previous next plan i)
  unfolding define_if_secondary
  IsPhased-define plan i h = IsPhased-if _ _ plan (IsPhased-definition plan cat next i h) h

  IsPhased-index_step :
      (plan : Plan) (i : IndexDiff) → IsPhased plan → IsPhased (index_step cat previous next plan i)
  unfolding index_step
  IsPhased-index_step plan (IndexDiff.create i) h = IsPhased-define plan i h
  IsPhased-index_step plan (IndexDiff.drop i) h = IsPhased-remove plan i h
  IsPhased-index_step plan (IndexDiff.alter p n) h = IsPhased-define _ n (IsPhased-remove plan p h)
  IsPhased-index_step plan IndexDiff.other h = IsPhased-guard plan _ h

  IsPhased-index_steps :
      (is : List IndexDiff) (plan : Plan)
      → IsPhased plan
      → IsPhased (index_steps cat previous next plan is)
  unfolding index_steps
  IsPhased-index_steps [] plan h = h
  IsPhased-index_steps (i ∷ is) plan h = IsPhased-index_steps is _ (IsPhased-index_step plan i h)

  IsPhased-remove_touching :
      (is : List Index) (column : Column) (plan : Plan)
      → IsPhased plan
      → IsPhased (remove_touching cat previous next column plan is)
  unfolding remove_touching
  IsPhased-remove_touching [] column plan h = h
  IsPhased-remove_touching (i ∷ is) column plan h =
      IsPhased-remove_touching is column _ (IsPhased-if _ _ plan (IsPhased-remove plan i h) h)

  IsPhased-define_touching :
      (is : List Index) (column : Column) (plan : Plan)
      → IsPhased plan
      → IsPhased (define_touching cat previous next column plan is)
  unfolding define_touching
  IsPhased-define_touching [] column plan h = h
  IsPhased-define_touching (i ∷ is) column plan h =
      IsPhased-define_touching is column _ (IsPhased-if _ _ plan (IsPhased-define plan i h) h)

  IsPhased-rebuild :
      (rs : List (Column × Column)) (plan : Plan)
      → IsPhased plan
      → IsPhased (rebuild_indices cat previous next plan rs)
  unfolding rebuild_indices
  IsPhased-rebuild [] plan h = h
  IsPhased-rebuild ((p, n) ∷ rs) plan h = IsPhased-rebuild rs _ (
      IsPhased-define_touching next.indices n _
        (IsPhased-remove_touching previous.indices p plan h))

  nothing-IsPhased : IsPhased empty_plan
  nothing-IsPhased = ((tt, tt), (tt, tt), (tt, tt), tt)

  IsPhased-guard_key : (columns : List ColumnDiff) → IsPhased (guard_key cat previous next columns)
  unfolding guard_key
  IsPhased-guard_key columns =
      IsPhased-if (primary_key_changed cat previous next columns) _ empty_plan
        (IsPhased-guard empty_plan ("primary-key layout or type change on " <> next.name)
          nothing-IsPhased)
        nothing-IsPhased

  -- The plan of every altered table is phased: its guards throw, its removals, definitions and
  -- updates are what their lists say, and no guard, removal or definition is there twice.
  pub alter_plan-IsPhased :
      (columns : List ColumnDiff) (indices : List IndexDiff)
      → IsPhased (alter_plan cat previous next columns indices)
  unfolding alter_plan
  alter_plan-IsPhased columns indices = IsPhased-rebuild _ _ (
      IsPhased-index_steps indices _ (IsPhased-column_steps columns _ (IsPhased-guard_key columns)))
