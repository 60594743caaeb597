-- ===== src/Examples/Stores.antt =====
-- The theorems on records that are inserted and read back, at a server that keeps the record created
-- last.
use mathlib.Core.List.{Permᴰ}
use toasty_driver_surreal.Prelude.{
  ℕ, true, false, List, [], ◌∷◌, Option, none, some, ◌≡◌, refl, ap, sym, inl, inr, All, arith,
}
use toasty_driver_surreal.Error.{ok}
use toasty_driver_surreal.Value.{Value, Values, SurValue, Array, Object}
use toasty_driver_surreal.Value.Encode.{to_surreal}
use toasty_driver_surreal.Value.RoundTrip.{HasType}
use toasty_driver_surreal.RecordId.{RecordId}
use toasty_driver_surreal.Expr.{Binds, is_primary_key, position}
use toasty_driver_surreal.Conn.Sdk.{Answer, done, Sdk}
use toasty_driver_surreal.Conn.Session.{Connection, response}
use toasty_driver_surreal.Op.{ExecResponse, value_stream, field_of}
use toasty_driver_surreal.Op.Write.{Source, key_of}
use toasty_driver_surreal.Op.Write.Keys.{numbered, Cell, cell_columns, cell_row, key_pairs}
use toasty_driver_surreal.Op.Insert.{Insert, exec_insert}
use toasty_driver_surreal.Op.GetByKey.{exec_get_by_key}
use toasty_driver_surreal.Op.Store.{IsStore, key_field}
use toasty_driver_surreal.Op.Store.ReadBack.{Selected, exec_get_by_key-exec_insert}
use toasty_driver_surreal.Examples.Samples.{
  codec, codec-IsLawful, lookup, members, user_id, active, group_id,
}
use toasty_driver_surreal.Examples.Writes.{lookup-IsMap}

abbrev Kept : Type 0
Kept = Option (RecordId × Object)

-- the three columns of a record
abbrev shown : Kept → Object
shown none = Object.end
shown (some (rid, content)) =
    Object.entry "acti`ve" (field_of codec lookup (SurValue.object content) "acti`ve") (
      Object.entry "id" (key_field members user_id rid.key)
        (Object.entry "group_id" (key_field members group_id rid.key) Object.end))

abbrev serve : Binds → Kept → Answer SurValue × Kept
serve ((n, SurValue.record_id table key) ∷ (m, SurValue.object content) ∷ []) kept =
    (done SurValue.none, some (record { table = table; key = key }, content))
serve binds kept =
    (done (SurValue.array (Array.cons (SurValue.object (shown kept)) Array.nil)), kept)

abbrev keeping : Sdk Kept ℕ SurValue
keeping = record {
  query = λ sql binds s. serve binds s;
  query_in = λ t sql binds s. serve binds s;
  begin = λ s. (done 1, s);
  commit = λ t s. (done tt, s);
  cancel = λ t s. (done tt, s);
  check = λ r. done r;
  take = λ r index. done r;
  parse_u64 = λ s. none;
}

abbrev IsKept : Kept → RecordId → Object → Type 0
IsKept kept rid content = kept ≡ some (rid, content)

-- the columns of the primary key in another order than its own
abbrev cells : List Cell
cells = (group_id, Value.u64 7) ∷ (active, Value.bool true) ∷ (user_id, Value.u64 41) ∷ []

abbrev chosen : List Cell
chosen = (active, Value.bool true) ∷ (group_id, Value.u64 7) ∷ (user_id, Value.u64 41) ∷ []

abbrev insertion : Insert
insertion = record {
  table = members;
  columns = cell_columns cells;
  source = Source.values (cell_row cells ∷ []);
  returning = none;
}

abbrev empty : Connection Kept ℕ
empty = record { server = none; transaction = some 1; read_only = false }

keeping-IsStore : IsStore codec lookup keeping (some 1) members (cell_columns chosen) IsKept
unfolding response field_of is_primary_key
keeping-IsStore = record {
  created = λ w s after r passed rid content h c. ap (λ (x : Answer SurValue × Kept). x.1) (sym h);
  selected = λ s rid content h. (
    SurValue.array (Array.cons (SurValue.object (shown s)) Array.nil),
    (s, (shown s, refl, (refl, refl), rw h (refl, (refl, (refl, tt))))),
  );
}

cells-Permᴰ : Permᴰ (numbered 0 (Value.u64 41 ∷ Value.u64 7 ∷ [])) (key_pairs members cells)
unfolding key_pairs is_primary_key position
cells-Permᴰ = Permᴰ.swap refl refl

chosen-Selected :
    All (Selected codec lookup codec-IsLawful lookup-IsMap keeping IsKept cells) chosen
unfolding HasType
chosen-Selected = (
  (inr (inl refl), refl, tt),
  ((inl refl, refl, omega arith), ((inr (inr (inl refl)), refl, omega arith), tt)),
)

inserted : (exec_insert codec lookup keeping empty insertion false).0 ≡ ok (ExecResponse.count 1)
unfolding exec_insert to_surreal
inserted = refl

exec_get_by_key-exec_insert_example :
    (exec_get_by_key codec lookup keeping
      (exec_insert codec lookup keeping empty insertion false).1
      (record {
        table = members;
        select = cell_columns chosen;
        keys = key_of (numbered 0 (Value.u64 41 ∷ Value.u64 7 ∷ [])) ∷ [];
      })).0
    ≡ ok (
        value_stream (
          Value.record_value (
            Values.cons
              (Value.bool true)
              (Values.cons (Value.u64 7) (Values.cons (Value.u64 41) Values.nil)))
          ∷ []))
exec_get_by_key-exec_insert_example =
    exec_get_by_key-exec_insert codec lookup codec-IsLawful lookup-IsMap keeping IsKept empty
      insertion false cells (Value.u64 41 ∷ Value.u64 7 ∷ []) chosen (ExecResponse.count 1)
      keeping-IsStore refl refl ((refl, (refl, tt)), ((refl, tt), (tt, tt))) cells-Permᴰ refl
      chosen-Selected inserted
