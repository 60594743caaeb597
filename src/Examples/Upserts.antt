-- ===== src/Examples/Upserts.antt =====
-- The theorem on the statement of an upsert at a concrete input.
use toasty_driver_surreal.Prelude.{
  pos, String, ◌<>◌, true, false, List, [], ◌∷◌, none, some, ◌≡◌, refl,
}
use toasty_driver_surreal.Text.{join, decimal}
use toasty_driver_surreal.Error.{ok}
use toasty_driver_surreal.Value.{Value, Values, Number, SurValue, RecordIdKey, Array, Object}
use toasty_driver_surreal.Value.Encode.{to_surreal}
use toasty_driver_surreal.RecordId.{RecordId, to_value}
use toasty_driver_surreal.Expr.{Expr, Binds, is_primary_key, escape_ident}
use toasty_driver_surreal.Op.Write.{Source}
use toasty_driver_surreal.Op.Write.Keys.{Cell, cell_columns, cell_row}
use toasty_driver_surreal.Op.Write.Assign.{Assignment}
use toasty_driver_surreal.Op.Insert.{Insert}
use toasty_driver_surreal.Op.Upsert.{UpsertTarget, UpsertAction, UpsertClause, upsert_statement}
use toasty_driver_surreal.Op.Upsert.Meaning.{Change, Item, printed, upsert_changes}
use toasty_driver_surreal.Op.Upsert.Effect.{Record, referred, set_all, changed}
use toasty_driver_surreal.Op.Upsert.Statement.{upsert_statement-changed}
use toasty_driver_surreal.Examples.Samples.{codec, catalog, users, user_id, active, sizes}

abbrev debug_assignment : Assignment → String
debug_assignment a = "assignment"

abbrev cells : List Cell
cells = (active, Value.bool true) ∷ (user_id, Value.u64 41) ∷ (sizes, Value.list Values.nil) ∷ []

abbrev insertion : Insert
insertion = record {
  table = users;
  columns = cell_columns cells;
  source = Source.values (cell_row cells ∷ []);
  returning = none;
}

-- 5 is appended to the sizes, by default to none
abbrev clause : UpsertClause
clause = record {
  target = UpsertTarget.columns (user_id.id ∷ []);
  action = UpsertAction.update;
  shared = (3 ∷ [], Assignment.append (Expr.value (Value.u64 5))) ∷ [];
  defaults = (3 ∷ [], Assignment.set (Expr.value (Value.list Values.nil))) ∷ [];
}

abbrev five : SurValue
five = SurValue.array (Array.cons (SurValue.number (Number.int (pos 5))) Array.nil)

abbrev appended : String × Change SurValue
appended = ("sizes", Change.concat (SurValue.array Array.nil) five)

abbrev created : String × Change SurValue
created = ("acti`ve", Change.keep (SurValue.bool true))

asked :
    upsert_changes codec debug_assignment catalog users clause.shared clause.defaults cells
    ≡ ok (created ∷ appended ∷ [])
unfolding upsert_changes to_surreal is_primary_key
asked = refl

-- the sum of two values, here the second
abbrev second : SurValue → SurValue → SurValue
second a b = b

abbrev rid : RecordId
rid = record { table = "users"; key = RecordIdKey.key_number (pos 41) }

upsert_statement-changed_example :
    (its : List Item) × ((binds : Binds) × (upsert_statement codec debug_assignment catalog
          insertion clause
          (cell_row cells)
          true
          rid
          Object.end
        ≡ ok ("UPSERT $rid " <> ("SET " <> join ", " (printed its)) <> " RETURN AFTER", binds))
      × (referred binds "$rid" ≡ some (to_value rid))
      × ((row : Record) (name : String)
          → set_all second second second binds its row name
            ≡ changed second second second (created ∷ appended ∷ []) row name))
upsert_statement-changed_example =
    upsert_statement-changed codec debug_assignment catalog insertion clause cells refl second
      second second created (appended ∷ []) true rid Object.end asked ((refl, tt), (tt, tt))

abbrev upserted : String
upserted =
    "UPSERT $rid SET `acti``ve` = `acti``ve` ?? $p0, `sizes` = array::concat(`sizes` ?? $p1, $p2)"

upserted-text :
    upsert_statement codec debug_assignment catalog insertion clause
      (cell_row cells)
      false
      rid
      Object.end
    ≡ ok (
      upserted,
      ("rid", to_value rid)
          ∷ ("p0", SurValue.bool true)
          ∷ ("p1", SurValue.array Array.nil)
          ∷ ("p2", five)
          ∷ [],
    )
unfolding upsert_statement to_surreal is_primary_key join decimal escape_ident
upserted-text = refl

-- A field that holds JSON's null counts as missing: the source value overwrites it.
null_overwritten :
    changed second second second (created ∷ []) (λ name. some SurValue.null) "acti`ve"
    ≡ some (SurValue.bool true)
unfolding changed
null_overwritten = refl
