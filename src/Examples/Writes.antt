-- ===== src/Examples/Writes.antt =====
-- The theorems on writes at concrete inputs.
use mathlib.Core.List.{Permᴰ}
use toasty_driver_surreal.Prelude.{
  eq_iff, length, ℕ, pos, String, true, false, List, [], ◌∷◌, none, some, ◌≡◌, refl, str_eq,
  Bool-cases, inl, inr,
}
use toasty_driver_surreal.Text.{join, decimal}
use toasty_driver_surreal.Error.{ok}
use toasty_driver_surreal.Value.{Value, Number, SurValue, RecordIdKey, Array, Object}
use toasty_driver_surreal.Value.Encode.{to_surreal}
use toasty_driver_surreal.Value.Decode.{from_surreal_for_column}
use toasty_driver_surreal.Value.RoundTrip.{HasType}
use toasty_driver_surreal.RecordId.{RecordId, record_id, to_value}
use toasty_driver_surreal.Expr.{BinaryOp, Expr, Binds, is_primary_key, position, column_ref}
use toasty_driver_surreal.Expr.Fragment.Numbering.{bound}
use toasty_driver_surreal.Conn.Session.{response}
use toasty_driver_surreal.Conn.Sdk.{Sdk}
use toasty_driver_surreal.Op.{ExecResponse, field_of}
use toasty_driver_surreal.Op.Write.{Row, Source, key_of}
use toasty_driver_surreal.Op.Write.Assign.{Assignment}
use toasty_driver_surreal.Op.Write.Keys.{numbered, Cell, cell_row, key_pairs}
use toasty_driver_surreal.Op.Insert.{Insert, build_row, exec_insert}
use toasty_driver_surreal.Op.Insert.Stored.{build_row-record_id}
use toasty_driver_surreal.Op.Insert.Content.{IsMap, build_row-from_surreal}
use toasty_driver_surreal.Op.Insert.Tally.{build_all, creations, exec_insert-creations}
use toasty_driver_surreal.Op.UpdateByKey.{UpdateByKey, update_statement}
use toasty_driver_surreal.Op.UpdateByKey.Target.{update_statement-rid}
use toasty_driver_surreal.Op.Upsert.{
  Upsert, UpsertTarget, UpsertAction, UpsertClause, prepare_row, targets_primary_key, exec_upsert,
}
use toasty_driver_surreal.Op.Upsert.Conflicts.{message, exec_upsert-ignore, Reply, reported}
use toasty_driver_surreal.Examples.Samples.{
  codec, codec-IsLawful, context, catalog, lookup, users, members, user_id, active, group_id,
}
use toasty_driver_surreal.Examples.Server.{duplicate, sdk_refusing, sdk, opened}

-- the key columns in another order than the primary key's
abbrev cells : List Cell
cells = (group_id, Value.u64 7) ∷ (active, Value.bool true) ∷ (user_id, Value.u64 41) ∷ []

abbrev insertion : List Row → Insert
insertion rows = record {
  table = members;
  columns = group_id ∷ active ∷ user_id ∷ [];
  source = Source.values rows;
  returning = none;
}

abbrev two_rows : List Row
two_rows = cell_row cells ∷ cell_row cells ∷ []

abbrev member : RecordId
member = record {
  table = "members";
  key = RecordIdKey.key_array (
      Array.cons (SurValue.number (Number.int (pos 41)))
        (Array.cons (SurValue.number (Number.int (pos 7))) Array.nil));
}

abbrev content : Object
content = Object.entry "acti`ve" (SurValue.bool true) Object.end

member-built : build_row codec (insertion two_rows) (cell_row cells) ≡ ok (to_value member, content)
unfolding build_row to_surreal
member-built = refl

cells-perm : Permᴰ (numbered 0 (Value.u64 41 ∷ Value.u64 7 ∷ [])) (key_pairs members cells)
unfolding key_pairs is_primary_key position
cells-perm = Permᴰ.swap refl refl

build_row-record_id_example :
    (id : RecordId) × (record_id codec members
        (key_of (numbered 0 (Value.u64 41 ∷ Value.u64 7 ∷ [])))
      ≡ ok id)
    × (to_value member ≡ to_value id)
build_row-record_id_example =
    build_row-record_id codec (insertion two_rows) cells (Value.u64 41 ∷ Value.u64 7 ∷ [])
      (to_value member) content refl cells-perm member-built

lookup-inserted :
    (name : String) (v : SurValue) (o : Object)
    → lookup o name ≡ none
    → lookup (codec.object_insert name v o) name ≡ some v
lookup-inserted name v Object.end h = rw ((eq_iff name name).1 refl) refl
lookup-inserted name v (Object.entry n w o) h = elim (Bool-cases (str_eq n name)) [
  | inl e ↦ let found : some w ≡ none = rw e at h in cc
  | inr e ↦ rw e (lookup-inserted name v o (rw e at h))
]

lookup-others :
    (other name : String) (v : SurValue) (o : Object)
    → str_eq other name ≡ false
    → lookup (codec.object_insert other v o) name ≡ lookup o name
lookup-others other name v Object.end h = rw h refl
lookup-others other name v (Object.entry n w o) h = elim (Bool-cases (str_eq n name)) [
  | inl e ↦ rw e refl
  | inr e ↦ rw e (lookup-others other name v o h)
]

pub lookup-IsMap : IsMap codec lookup
lookup-IsMap = record { empty = λ name. refl; inserted = lookup-inserted; others = lookup-others }

active-plain : is_primary_key members active ≡ false
unfolding is_primary_key
active-plain = refl

active-typed : HasType codec (Value.bool true) active.ty
unfolding HasType
active-typed = tt

build_row-from_surreal_example :
    from_surreal_for_column codec (field_of codec lookup (SurValue.object content) "acti`ve") active
    ≡ ok (Value.bool true)
build_row-from_surreal_example =
    build_row-from_surreal codec lookup lookup-IsMap codec-IsLawful (insertion two_rows)
      ((group_id, Value.u64 7) ∷ []) active (Value.bool true) ((user_id, Value.u64 41) ∷ [])
      (to_value member) content refl (refl, (refl, tt)) active-plain refl active-typed member-built

exec_insert-two :
    (exec_insert codec lookup sdk opened (insertion two_rows) false).0 ≡ ok (ExecResponse.count 2)
unfolding exec_insert to_surreal
exec_insert-two = refl

exec_insert-creations_example :
    (bs : List (SurValue × Object)) × (build_all codec lookup sdk (insertion two_rows) two_rows
      ≡ ok bs)
    × (ExecResponse.count 2 ≡ ExecResponse.count (length two_rows))
    × ((exec_insert codec lookup sdk opened (insertion two_rows) false).1
        ≡ creations codec lookup sdk false opened bs)
exec_insert-creations_example =
    exec_insert-creations codec lookup sdk opened (insertion two_rows) false two_rows
      (ExecResponse.count 2) refl refl exec_insert-two

abbrev debug_assignment : Assignment → String
debug_assignment a = "assignment"

-- set `active` of the user 41 if its id differs from the literal
abbrev change : UpdateByKey
change = record {
  table = users;
  keys = Value.u64 41 ∷ [];
  assignments = (1 ∷ [], Assignment.set (Expr.value (Value.bool true))) ∷ [];
  filter = none;
  condition = some (Expr.binary_op BinaryOp.ne (Expr.reference 0) (Expr.value (Value.u64 7)));
  returning = none;
}

abbrev change_text : String
change_text = "UPDATE $rid SET `acti``ve` = $p0 WHERE record::id(id) != $p1"

abbrev change_binds : Binds
change_binds =
    ("p0", SurValue.bool true)
    ∷ ("p1", SurValue.number (Number.int (pos 7)))
    ∷ ("rid", SurValue.record_id "users" (RecordIdKey.key_number (pos 41)))
    ∷ []

change_rendered :
    update_statement codec debug_assignment catalog context change (Value.u64 41)
    ≡ ok (change_text, change_binds)
unfolding update_statement to_surreal join decimal column_ref
change_rendered = refl

update_statement-rid_example :
    (rid : RecordId) × (record_id codec users (Value.u64 41) ≡ ok rid)
    × (bound "rid" change_binds ≡ some (to_value rid))
update_statement-rid_example =
    update_statement-rid codec debug_assignment catalog context change (Value.u64 41) change_text
      change_binds change_rendered

abbrev ignoring : UpsertClause
ignoring = record {
  target = UpsertTarget.columns (user_id.id ∷ group_id.id ∷ []);
  action = UpsertAction.ignore;
  shared = [];
  defaults = [];
}

abbrev creation : Upsert
creation = record { stmt = insertion (cell_row cells ∷ []); clause = some ignoring }

abbrev creation_text : String
creation_text = "CREATE $rid CONTENT $data"

abbrev refusing : Sdk (List String) ℕ SurValue
refusing = sdk_refusing creation_text

ignoring-targets :
    targets_primary_key codec debug_assignment catalog lookup refusing message members
      ignoring.target
    ≡ ok tt
unfolding targets_primary_key
ignoring-targets = refl

creation-prepared :
    prepare_row codec debug_assignment catalog lookup refusing message creation.stmt
      (cell_row cells)
    ≡ ok (member, content, none)
unfolding prepare_row to_surreal
creation-prepared = refl

exec_upsert-ignore_example :
    exec_upsert codec debug_assignment catalog lookup refusing message opened creation ≡ (
      reported codec lookup none (Reply.refused duplicate),
      record opened { server = creation_text ∷ [] },
    )
unfolding response
exec_upsert-ignore_example =
    exec_upsert-ignore codec debug_assignment catalog lookup refusing message (λ e. refl) opened
      creation ignoring (cell_row cells) member content none (Reply.refused duplicate)
      (creation_text ∷ []) refl refl refl ignoring-targets creation-prepared (inl refl)
