-- ===== src/Op/Upsert/Statement.antt =====
-- The statement of an upsert, and what it does to a record.
use toasty_driver_surreal.Prelude.{
  String, ◌<>◌, Bool, List, [], ◌∷◌, some, ◌≡◌, refl, ap, ◌∙◌, if◌then◌else◌,
}
use toasty_driver_surreal.Text.{join}
use toasty_driver_surreal.Error.{Result, ok, >>=-eq-ok, ok-injective, ◌>>=◌}
use toasty_driver_surreal.Schema.{Catalog}
use toasty_driver_surreal.Value.{SurValue, Object}
use toasty_driver_surreal.Value.Codec.{Codec}
use toasty_driver_surreal.RecordId.{RecordId, to_value}
use toasty_driver_surreal.Expr.{Binds}
use toasty_driver_surreal.Expr.Fragment.{number_onto}
use toasty_driver_surreal.Op.Write.Keys.{Cell, cell_columns, cell_row}
use toasty_driver_surreal.Op.Write.Assign.{Assignment}
use toasty_driver_surreal.Op.Write.Mutations.{created_sets, shared_sets, assign_clause}
use toasty_driver_surreal.Op.Insert.{Insert}
use toasty_driver_surreal.Op.Upsert.{UpsertClause, upsert_statement}
use toasty_driver_surreal.Op.Upsert.Meaning.{
  Change, Changes, Item, printed, items, texts, all_values, created_changes, shared_changes,
  upsert_changes,
}
use toasty_driver_surreal.Op.Upsert.Sets.{all_emitted, shared_sets-emitted}
use toasty_driver_surreal.Op.Upsert.Created.{all_emitted-append, created_sets-emitted}
use toasty_driver_surreal.Op.Upsert.Effect.{
  Record, referred, set_all, changed, IsSeparate, set_all-changed,
}
use toasty_driver_surreal.Op.Upsert.Placeholders.{substitute-items, numbered-Refers}

module _ (C : Codec) (debug_assignment : Assignment → String) (catalog : Catalog) (insert : Insert)
    (clause : UpsertClause) (cells : List Cell) (listed : insert.columns ≡ cell_columns cells) where
  -- the two loops
  abbrev loops : Result (List String × Binds)
  loops = do
    created ←
        created_sets C debug_assignment insert.table clause.shared (cell_row cells) 0 insert.columns
          ([], [])
    shared_sets C debug_assignment catalog insert.table clause.defaults clause.shared created

  loops-emitted :
      (cs : Changes)
      → upsert_changes C debug_assignment catalog insert.table clause.shared clause.defaults cells
        ≡ ok cs
      → loops ≡ ok (texts 0 cs, number_onto [] (all_values cs))
  unfolding upsert_changes
  loops-emitted cs h =
      let (created, e, h₁) = >>=-eq-ok (created_changes C insert.table clause.shared cells) _ h in
      let (shared, f, h₂) =
        >>=-eq-ok
          (shared_changes C debug_assignment catalog insert.table clause.defaults clause.shared) _
          h₁ in
      rw
        (
          listed,
          created_sets-emitted C debug_assignment insert.table clause.shared [] cells ([], []),
          e,
          shared_sets-emitted C debug_assignment catalog insert.table clause.defaults clause.shared
              (all_emitted C debug_assignment ([], []) created),
          f,
        )
        (ap ok (
          all_emitted-append C debug_assignment insert.table clause.shared created shared ([], [])
          ∙ ap (all_emitted C debug_assignment ([], [])) (ok-injective h₂)))

  -- The statement of an upsert that updates is `UPSERT $rid SET` with a clause for each change that
  -- the upsert asks for, `$rid` being bound to the record id. When no two changes are of one field,
  -- the clauses, carried out by the server in their order with the values bound to their
  -- placeholders, change a record, a new one or one that exists, as the changes at once: each field
  -- by its change, and no other field. The row gives a literal to each column, and there is at least
  -- one change.
  pub upsert_statement-changed :
      (plus minus concat : SurValue → SurValue → SurValue) (first : String × Change SurValue)
      (rest : Changes) (returns : Bool) (rid : RecordId) (content : Object)
      → upsert_changes C debug_assignment catalog insert.table clause.shared clause.defaults cells
        ≡ ok (first ∷ rest)
      → IsSeparate plus minus concat (first ∷ rest)
      → (its : List Item) × ((binds : Binds) × (upsert_statement C debug_assignment catalog insert
              clause
              (cell_row cells)
              returns
              rid
              content
            ≡ ok (
              "UPSERT $rid "
                  <> ("SET " <> join ", " (printed its))
                  <> (if returns then " RETURN AFTER" else ""),
              binds,
            ))
          × (referred binds "$rid" ≡ some (to_value rid))
          × ((row : Record) (name : String)
              → set_all plus minus concat binds its row name
                ≡ changed plus minus concat (first ∷ rest) row name))
  unfolding upsert_statement assign_clause referred
  upsert_statement-changed plus minus concat first rest returns rid content h separate =
      let cs : Changes = first ∷ rest in
      let (created, e, f) =
        >>=-eq-ok
          (created_sets C debug_assignment insert.table clause.shared (cell_row cells) 0
            insert.columns ([], []))
          _ (loops-emitted cs h) in
      let binds : Binds = ("rid", to_value rid) ∷ number_onto [] (all_values cs) in
      (
        items 0 cs,
        (
          binds,
          rw (e, f) refl,
          refl,
          set_all-changed plus minus concat binds cs 0
              (substitute-items binds cs 0 (numbered-Refers (to_value rid) (all_values cs)))
              separate,
        ),
      )
