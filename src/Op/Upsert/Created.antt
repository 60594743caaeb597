-- ===== src/Op/Upsert/Created.antt =====
-- The clauses that an upsert makes of its source values are the numbered texts of their changes.
use mathlib.Core.List.{append_assoc}
use toasty_driver_surreal.Prelude.{
  suc, String, ◌<>◌, List, [], ◌∷◌, ◌++◌, ◌||◌, ◌≡◌, refl, ap, sym, ◌∙◌, length, Bool-cases, inl,
  inr,
}
use toasty_driver_surreal.Error.{Result, ok, err, ◌>>=◌}
use toasty_driver_surreal.Schema.{Column, Table}
use toasty_driver_surreal.Value.{Value, SurValue, is_null}
use toasty_driver_surreal.Value.Codec.{Codec}
use toasty_driver_surreal.Value.Encode.{to_surreal_for_column}
use toasty_driver_surreal.Expr.{Binds, push, escape_ident, is_primary_key}
use toasty_driver_surreal.Expr.Fragment.{number_onto}
use toasty_driver_surreal.Op.Write.{Row, Entry}
use toasty_driver_surreal.Op.Write.Keys.{
  Cell, cell_columns, cell_row, row_value-behind, length-snoc,
}
use toasty_driver_surreal.Op.Write.Assign.{Assignment, Assignments, assigns, with_placeholder}
use toasty_driver_surreal.Op.Write.Mutations.{created_value, created_sets}
use toasty_driver_surreal.Op.Upsert.Meaning.{Change, Changes, kept, created_changes}
use toasty_driver_surreal.Op.Upsert.Sets.{
  emitted, all_emitted, all_emitted-nothing, all_emitted-cons, before,
}

module _ (C : Codec) (debug_assignment : Assignment → String) where
  module _ (table : Table) (shared : Assignments) where
    abbrev CreatedEmitted : Row → List Cell → List String × Binds → Type 0
    CreatedEmitted front cells made =
        created_sets C debug_assignment table shared (front ++ cell_row cells) (length front)
          (cell_columns cells) made
        ≡ (created_changes C table shared cells >>= λ cs.
            ok (all_emitted C debug_assignment made cs))

    created_stored :
        (column : Column) (stored : Result SurValue) (sets : List String) (binds : Binds)
        → (with_placeholder C stored binds
              (λ p. escape_ident column.name <> " = " <> escape_ident column.name <> " ?? " <> p)
            >>= λ (text, after). ok (sets ++ text ∷ [], after))
          ≡ ((stored >>= λ s. ok ((column.name, Change.keep s) ∷ [])) >>= λ cs.
              ok (all_emitted C debug_assignment (sets, binds) cs))
    unfolding number_onto push
    created_stored column (err e) sets binds = refl
    created_stored column (ok s) sets binds = refl

    created_one :
        (column : Column) (v : Value) (made : List String × Binds)
        → created_value C debug_assignment column v made
          ≡ (kept C column v >>= λ cs. ok (all_emitted C debug_assignment made cs))
    unfolding created_value
    created_one column v (sets, binds) = elim (Bool-cases (is_null v)) [
      | inl e ↦
          rw (e, created_value, kept) (ap ok (all_emitted-nothing C debug_assignment (sets, binds)))
      | inr e ↦
          rw (e, created_value, kept)
            (created_stored column (to_surreal_for_column C v column) sets binds)
    ]

    pub all_emitted-append :
        (first rest : Changes) (made : List String × Binds)
        → all_emitted C debug_assignment (all_emitted C debug_assignment made first) rest
          ≡ all_emitted C debug_assignment made (first ++ rest)
    all_emitted-append [] rest made =
        ap (λ (m : List String × Binds). all_emitted C debug_assignment m rest)
          (sym (all_emitted-nothing C debug_assignment made))
    all_emitted-append ((name, c) ∷ first) rest (sets, binds) =
        let e = emitted name binds c in
        ap (λ (m : List String × Binds). all_emitted C debug_assignment m rest)
          (sym (all_emitted-cons C debug_assignment sets binds name c first))
        ∙ all_emitted-append first rest (sets ++ e.0 ∷ [], e.1)
        ∙ all_emitted-cons C debug_assignment sets binds name c (first ++ rest)

    -- the loop from behind `front` and a further entry
    behind :
        (front : Row) (v : Value) (cells : List Cell) (made : List String × Binds)
        → created_sets C debug_assignment table shared
            (front ++ Entry.value v ∷ cell_row cells)
            (suc (length front))
            (cell_columns cells)
            made
          ≡ created_sets C debug_assignment table shared
              ((front ++ Entry.value v ∷ []) ++ cell_row cells)
              (length (front ++ Entry.value v ∷ []))
              (cell_columns cells)
              made
    behind front v cells made =
        ap
          (λ (row : Row).
            created_sets C debug_assignment table shared row (suc (length front))
              (cell_columns cells) made)
          (sym (append_assoc front (Entry.value v ∷ []) (cell_row cells)))
        ∙ ap
            (λ i.
              created_sets C debug_assignment table shared
                ((front ++ Entry.value v ∷ []) ++ cell_row cells) i (cell_columns cells) made)
            (length-snoc front (Entry.value v))

    created_rest :
        (first : Result Changes) (front : Row) (v : Value) (cells : List Cell)
        (made : List String × Binds)
        → ((next : List String × Binds) → CreatedEmitted (front ++ Entry.value v ∷ []) cells next)
        → ((first >>= λ cs. ok (all_emitted C debug_assignment made cs)) >>= λ next.
            created_sets C debug_assignment table shared
              (front ++ Entry.value v ∷ cell_row cells)
              (suc (length front))
              (cell_columns cells)
              next)
          ≡ ((first >>= λ cs. created_changes C table shared cells >>= λ rest. ok (cs ++ rest))
              >>= λ cs. ok (all_emitted C debug_assignment made cs))
    created_rest (err e) front v cells made h = refl
    created_rest (ok first) front v cells made h =
        behind front v cells (all_emitted C debug_assignment made first)
        ∙ h (all_emitted C debug_assignment made first)
        ∙ before C debug_assignment (created_changes C table shared cells) (λ rest. first ++ rest)
            (all_emitted C debug_assignment made first) made
            (λ rest. all_emitted-append first rest made)

    pub created_sets-emitted :
        (front : Row) (cells : List Cell) (made : List String × Binds)
        → CreatedEmitted front cells made
    unfolding created_sets created_changes
    created_sets-emitted front [] made = ap ok (all_emitted-nothing C debug_assignment made)
    created_sets-emitted front ((column, v) ∷ cells) made =
        let further = created_sets-emitted (front ++ Entry.value v ∷ []) cells in
        elim (Bool-cases (is_primary_key table column || assigns shared (column.id.index ∷ []))) [
          | inl e ↦ rw (e, created_sets, created_changes) (behind front v cells made ∙ further made)
          | inr e ↦
              rw
                (
                  e,
                  created_sets,
                  created_changes,
                  row_value-behind C "upsert" table front v (cell_row cells),
                  created_one column v made,
                )
                (created_rest (kept C column v) front v cells made further)
        ]
