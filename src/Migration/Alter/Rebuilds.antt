-- ===== src/Migration/Alter/Rebuilds.antt =====
-- Secondary indices over a renamed column are removed and defined again.
use toasty_driver_surreal.Prelude.{
  String, Bool, true, false, List, [], ◌∷◌, ◌≡◌, refl, ap, sym, inl, inr, if◌then◌else◌, subst, In,
  In-append,
}
use toasty_driver_surreal.Schema.{Column, Index, Table, Catalog, contains_column}
use toasty_driver_surreal.Migration.Diff.{ColumnDiff, IndexDiff}
use toasty_driver_surreal.Migration.Statements.{remove_index_statement, define_index_statement}
use toasty_driver_surreal.Migration.Alter.{
  Plan, column_steps, remove_if_secondary, define_if_secondary, index_steps, remove_touching,
  define_touching, rebuild_indices, guard_key, alter_plan,
}
use toasty_driver_surreal.Migration.Alter.Renames.{
  is_move, row_changes, all_row_changes, rows_before_rebuild,
}
use toasty_driver_surreal.Migration.Alter.Growth.{
  Removes, Defines, Removes-it, Defines-it, remove_touching-Grows, define_touching-Grows,
  rebuild-Grows, false-true,
}

-- a secondary index over a column
abbrev pub Touches : Index → Column → Type 0
Touches i c = (i.primary_key ≡ false) × (contains_column i.columns c.id ≡ true)

module _ (cat : Catalog) (previous next : Table) where
  head_removed :
      (b : Bool) (is : List Index) (c : Column) (plan : Plan) (i : Index)
      → (i.primary_key ≡ false) × (b ≡ true)
      → Removes
          (remove_touching cat previous next c
            (if b then remove_if_secondary cat previous next plan i else plan)
            is)
          (remove_index_statement previous i)
  head_removed true is c plan i h =
      (remove_touching-Grows cat previous next is c
          (remove_if_secondary cat previous next plan i)).0
        _ (Removes-it cat previous next plan i h.0)
  head_removed false is c plan i h = absurd (false-true h.1)

  touching_removed :
      (is : List Index) (c : Column) (plan : Plan) (i : Index)
      → In i is
      → Touches i c
      → Removes (remove_touching cat previous next c plan is) (remove_index_statement previous i)
  unfolding remove_touching
  touching_removed [] c plan i m h = absurd m.lower
  touching_removed (j ∷ is) c plan i (inr m) h =
      touching_removed is c
        (if contains_column j.columns c.id
          then remove_if_secondary cat previous next plan j
          else plan)
        i m h
  touching_removed (j ∷ is) c plan i (inl e) h =
      subst
        (λ x.
          Removes (remove_touching cat previous next c plan (j ∷ is))
            (remove_index_statement previous x))
        e
        (head_removed (contains_column j.columns c.id) is c plan j
          (subst (λ x. Touches x c) (sym e) h))

  head_defined :
      (b : Bool) (is : List Index) (c : Column) (plan : Plan) (i : Index)
      → (i.primary_key ≡ false) × (b ≡ true)
      → Defines
          (define_touching cat previous next c
            (if b then define_if_secondary cat previous next plan i else plan)
            is)
          (define_index_statement cat next i false)
  head_defined true is c plan i h =
      (define_touching-Grows cat previous next is c
          (define_if_secondary cat previous next plan i)).1
        _ (Defines-it cat previous next plan i h.0)
  head_defined false is c plan i h = absurd (false-true h.1)

  touching_defined :
      (is : List Index) (c : Column) (plan : Plan) (i : Index)
      → In i is
      → Touches i c
      → Defines
          (define_touching cat previous next c plan is)
          (define_index_statement cat next i false)
  unfolding define_touching
  touching_defined [] c plan i m h = absurd m.lower
  touching_defined (j ∷ is) c plan i (inr m) h =
      touching_defined is c
        (if contains_column j.columns c.id
          then define_if_secondary cat previous next plan j
          else plan)
        i m h
  touching_defined (j ∷ is) c plan i (inl e) h =
      subst
        (λ x.
          Defines (define_touching cat previous next c plan (j ∷ is))
            (define_index_statement cat next x false))
        e
        (head_defined (contains_column j.columns c.id) is c plan j
          (subst (λ x. Touches x c) (sym e) h))

  rebuilt-Removes :
      (rs : List (Column × Column)) (plan : Plan) (p n : Column) (i : Index)
      → In (p, n) rs
      → In i previous.indices
      → Touches i p
      → Removes (rebuild_indices cat previous next plan rs) (remove_index_statement previous i)
  unfolding rebuild_indices
  rebuilt-Removes [] plan p n i m mi ti = absurd m.lower
  rebuilt-Removes ((q, o) ∷ rs) plan p n i (inr m) mi ti =
      rebuilt-Removes rs
        (define_touching cat previous next o
          (remove_touching cat previous next q plan previous.indices) next.indices)
        p n i m mi ti
  rebuilt-Removes ((q, o) ∷ rs) plan p n i (inl e) mi ti =
      let removed : Plan = remove_touching cat previous next q plan previous.indices in
      (rebuild-Grows cat previous next rs
          (define_touching cat previous next o removed next.indices)).0
        _
        ((define_touching-Grows cat previous next next.indices o removed).0 _ (
          touching_removed previous.indices q plan i mi
            (subst (λ (x : Column × Column). Touches i x.0) (sym e) ti)))

  rebuilt-Defines :
      (rs : List (Column × Column)) (plan : Plan) (p n : Column) (j : Index)
      → In (p, n) rs
      → In j next.indices
      → Touches j n
      → Defines
          (rebuild_indices cat previous next plan rs)
          (define_index_statement cat next j false)
  unfolding rebuild_indices
  rebuilt-Defines [] plan p n j m mj tj = absurd m.lower
  rebuilt-Defines ((q, o) ∷ rs) plan p n j (inr m) mj tj =
      rebuilt-Defines rs
        (define_touching cat previous next o
          (remove_touching cat previous next q plan previous.indices) next.indices)
        p n j m mj tj
  rebuilt-Defines ((q, o) ∷ rs) plan p n j (inl e) mj tj =
      let removed : Plan = remove_touching cat previous next q plan previous.indices in
      (rebuild-Grows cat previous next rs
          (define_touching cat previous next o removed next.indices)).1
        _
        (touching_defined next.indices o removed j mj
          (subst (λ (x : Column × Column). Touches j x.1) (sym e) tj))

  -- the plan before the rebuild
  abbrev diffed : List ColumnDiff → List IndexDiff → Plan
  diffed columns indices =
      index_steps cat previous next
        (column_steps cat previous next (guard_key cat previous next columns) columns) indices

  moves-alter :
      (p n : Column)
      → is_move previous next p n ≡ true
      → In (p, n) (row_changes previous next (ColumnDiff.alter p n)).0
  moves-alter p n h = rw h (inl refl)

  In-moves :
      (columns : List ColumnDiff) (p n : Column)
      → In (ColumnDiff.alter p n) columns
      → is_move previous next p n ≡ true
      → In (p, n) (all_row_changes previous next columns).0
  In-moves [] p n m h = absurd m.lower
  In-moves (c ∷ cs) p n (inr m) h =
      In-append (p, n) (row_changes previous next c).0 _ (inr (In-moves cs p n m h))
  In-moves (c ∷ cs) p n (inl e) h =
      In-append (p, n) (row_changes previous next c).0 _
        (inl (subst (λ x. In (p, n) (row_changes previous next x).0) (sym e) (moves-alter p n h)))

  -- the renames that the rebuild starts from
  In-renamed_columns :
      (columns : List ColumnDiff) (indices : List IndexDiff) (p n : Column)
      → In (ColumnDiff.alter p n) columns
      → is_move previous next p n ≡ true
      → In (p, n) (diffed columns indices).renamed_columns
  In-renamed_columns columns indices p n m h =
      subst (In (p, n))
        (sym (
          ap (λ (r : List (Column × Column) × List String). r.0)
            (rows_before_rebuild cat previous next columns indices)))
        (In-moves columns p n m h)

  -- When a column outside both primary keys is renamed, every secondary index of the previous table
  -- over the old column is removed, whatever the difference says of it, whatever the next table has
  -- in its place, and whatever else changes.
  pub alter_plan-Removes :
      (columns : List ColumnDiff) (indices : List IndexDiff) (p n : Column) (i : Index)
      → In (ColumnDiff.alter p n) columns
      → is_move previous next p n ≡ true
      → In i previous.indices
      → Touches i p
      → Removes (alter_plan cat previous next columns indices) (remove_index_statement previous i)
  unfolding alter_plan
  alter_plan-Removes columns indices p n i m h mi ti =
      rebuilt-Removes (diffed columns indices).renamed_columns (diffed columns indices) p n i
        (In-renamed_columns columns indices p n m h) mi ti

  -- When a column outside both primary keys is renamed, every secondary index of the next table over
  -- the new column is defined, whatever the difference says of it, whatever the previous table had in
  -- its place, and whatever else changes.
  pub alter_plan-Defines :
      (columns : List ColumnDiff) (indices : List IndexDiff) (p n : Column) (j : Index)
      → In (ColumnDiff.alter p n) columns
      → is_move previous next p n ≡ true
      → In j next.indices
      → Touches j n
      → Defines
          (alter_plan cat previous next columns indices)
          (define_index_statement cat next j false)
  unfolding alter_plan
  alter_plan-Defines columns indices p n j m h mj tj =
      rebuilt-Defines (diffed columns indices).renamed_columns (diffed columns indices) p n j
        (In-renamed_columns columns indices p n m h) mj tj
