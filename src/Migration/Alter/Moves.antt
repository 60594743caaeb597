-- ===== src/Migration/Alter/Moves.antt =====
-- What the updates of an altered table do to a row.
use mathlib.Core.Path.{fun_ext}
use toasty_driver_surreal.Prelude.{
  String, true, false, List, [], ◌∷◌, ◌++◌, ◌≡◌, refl, ap, sym, ◌∙◌, All, Bool-cases, inl, inr,
  eq_iff, arith,
}
use toasty_driver_surreal.Schema.{Column, Table, Catalog}
use toasty_driver_surreal.Expr.{is_primary_key}
use toasty_driver_surreal.Migration.Diff.{ColumnDiff, IndexDiff}
use toasty_driver_surreal.Migration.Statements.{unset_statement, move_statement}
use toasty_driver_surreal.Migration.Alter.{alter_plan}
use toasty_driver_surreal.Migration.Alter.Renames.{
  is_move, row_changes, all_row_changes, alter_plan-all_row_changes,
}
use toasty_driver_surreal.Migration.Alter.Fields.{
  Fields, copied, migrated, touches, Apart, AllApart, Runs, run_all,
}

module _ (previous next : Table) where
  alone :
      (c : ColumnDiff) (changes : List ColumnDiff) (name : String)
      → touches previous next c name ≡ true
      → All (Apart previous next c) changes
      → All (λ d. touches previous next d name ≡ false) changes
  alone c [] name t h = tt
  alone c (d ∷ changes) name t (h, hs) = (h name t, alone c changes name t hs)

  -- a change apart from a rename leaves its two fields
  touches-rename :
      (c : ColumnDiff) (p n : Column)
      → Apart previous next c (ColumnDiff.alter p n)
      → is_move previous next p n ≡ true
      → (touches previous next c p.name ≡ false) × (touches previous next c n.name ≡ false)
  unfolding touches
  touches-rename c p n h m =
      let first = (eq_iff p.name p.name).1 refl in
      let second = (eq_iff n.name n.name).1 refl in
      (ground (arith, h p.name), ground (arith, h n.name))

module _ {V : Type 0} where
  module _ (previous next : Table) where
    module _ (run : String → Fields V → Fields V) where
      run_all-migrated_one :
          (c : ColumnDiff) (row : Fields V)
          → Runs previous next run c
          → run_all run (row_changes previous next c).1 row ≡ migrated previous next (c ∷ []) row
      unfolding run_all migrated unset_statement move_statement
      run_all-migrated_one (ColumnDiff.add column) row h = refl
      run_all-migrated_one (ColumnDiff.drop column) row h =
          elim (Bool-cases (is_primary_key previous column)) [
            | inl e ↦ fun_ext (λ name. rw e refl)
            | inr e ↦ fun_ext (λ name. rw e (ap (λ (r : Fields V). r name) (h row)))
          ]
      run_all-migrated_one (ColumnDiff.alter p n) row (moved, gone) =
          elim (Bool-cases (is_move previous next p n)) [
            | inl e ↦ fun_ext (λ name. rw e (
                ap (λ (r : Fields V). r name)
                  (ap (run _) (moved row) ∙ gone (copied p.name n.name row))))
            | inr e ↦ fun_ext (λ name. rw e refl)
          ]
      run_all-migrated_one ColumnDiff.other row h = refl

      run_all-append :
          (front back : List String) (row : Fields V)
          → run_all run (front ++ back) row ≡ run_all run back (run_all run front row)
      unfolding run_all
      run_all-append [] back row = refl
      run_all-append (s ∷ front) back row = run_all-append front back (run s row)

    -- a change leaves what it does not touch, and is alone on what it touches
    untouched :
        (c : ColumnDiff) (changes : List ColumnDiff) (row : Fields V) (name : String)
        → touches previous next c name ≡ false
        → migrated previous next (c ∷ changes) row name ≡ migrated previous next changes row name
    unfolding migrated touches
    untouched (ColumnDiff.add column) changes row name e = refl
    untouched (ColumnDiff.drop column) changes row name e = rw e refl
    untouched (ColumnDiff.alter p n) changes row name e = ground arith
    untouched ColumnDiff.other changes row name e = refl

    migrated-touches :
        (changes : List ColumnDiff) (row : Fields V) (name : String)
        → All (λ d. touches previous next d name ≡ false) changes
        → migrated previous next changes row name ≡ row name
    unfolding migrated
    migrated-touches [] row name h = refl
    migrated-touches (d ∷ changes) row name (h, hs) =
        untouched d changes row name h ∙ migrated-touches changes row name hs

    touched :
        (c : ColumnDiff) (changes : List ColumnDiff) (row : Fields V) (name : String)
        → touches previous next c name ≡ true
        → migrated previous next (c ∷ changes) row name ≡ migrated previous next (c ∷ []) row name
    unfolding migrated touches
    touched (ColumnDiff.add column) changes row name e = cc
    touched (ColumnDiff.drop column) changes row name e = rw e refl
    touched (ColumnDiff.alter p n) changes row name e = ground arith
    touched ColumnDiff.other changes row name e = cc

    -- what is untouched depends on the other fields only
    agree :
        (c : ColumnDiff) (changes : List ColumnDiff) (row other : Fields V)
        → All (Apart previous next c) changes
        → ((name : String) → touches previous next c name ≡ false → other name ≡ row name)
        → (name : String) → touches previous next c name ≡ false
        → migrated previous next changes other name ≡ migrated previous next changes row name
    unfolding migrated touches
    agree c [] row other h same name e = same name e
    agree c (ColumnDiff.add column ∷ changes) row other (h, hs) same name e =
        agree c changes row other hs same name e
    agree c (ColumnDiff.other ∷ changes) row other (h, hs) same name e =
        agree c changes row other hs same name e
    agree c (ColumnDiff.drop column ∷ changes) row other (h, hs) same name e =
        ground (arith, agree c changes row other hs same name e)
    agree c (ColumnDiff.alter p n ∷ changes) row other (h, hs) same name e =
        let rest = agree c changes row other hs same name e in
        elim (Bool-cases (is_move previous next p n)) [
          | inl m ↦
              let (first, second) = touches-rename previous next c p n h m in
              rw (m, same p.name first, same n.name second, rest) refl
          | inr m ↦ rw m rest
        ]

    split :
        (c : ColumnDiff) (changes : List ColumnDiff) (row : Fields V)
        → All (Apart previous next c) changes
        → migrated previous next changes (migrated previous next (c ∷ []) row)
          ≡ migrated previous next (c ∷ changes) row
    unfolding migrated
    split c changes row h = fun_ext (λ name. elim (Bool-cases (touches previous next c name)) [
      | inl t ↦
          migrated-touches changes (migrated previous next (c ∷ []) row) name
            (alone previous next c changes name t h)
          ∙ sym (touched c changes row name t)
      | inr t ↦
          agree c changes row (migrated previous next (c ∷ []) row) h (untouched c [] row) name t
          ∙ sym (untouched c changes row name t)
    ])

    module _ (run : String → Fields V → Fields V) where
      run_all-changes :
          (changes : List ColumnDiff) (row : Fields V)
          → AllApart previous next changes
          → All (Runs previous next run) changes
          → run_all run (all_row_changes previous next changes).1 row
            ≡ migrated previous next changes row
      unfolding run_all migrated
      run_all-changes [] row apart h = refl
      run_all-changes (c ∷ changes) row (apart, rest) (h, hs) =
          run_all-append run (row_changes previous next c).1
            (all_row_changes previous next changes).1 row
          ∙ ap (run_all run (all_row_changes previous next changes).1)
              (run_all-migrated_one run c row h)
          ∙ run_all-changes changes (migrated previous next (c ∷ []) row) rest hs
          ∙ split c changes row apart

      -- When no two column changes of a table touch the same field, the updates of its migration,
      -- run one after another by a server that runs each as SurrealQL says, change a row as the
      -- changes at once: a dropped column's field is gone, a renamed column's value, if the row has
      -- one, is under the new name and no longer under the old, and no other field changes,
      -- whatever the indices are.
      pub run_all-migrated :
          (cat : Catalog) (changes : List ColumnDiff) (indices : List IndexDiff) (row : Fields V)
          → AllApart previous next changes
          → All (Runs previous next run) changes
          → run_all run (alter_plan cat previous next changes indices).data_changes row
            ≡ migrated previous next changes row
      run_all-migrated cat changes indices row apart h =
          ap (λ statements. run_all run statements row)
            (alter_plan-all_row_changes cat previous next changes indices).1
          ∙ run_all-changes changes row apart h
