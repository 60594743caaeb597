-- ===== src/Value/Json/RoundTrip.antt =====
-- JSON text that is written to a native JSON column is read back as the text of the same JSON
-- value.
use toasty_driver_surreal.Prelude.{
  ℕ, ℤ, String, ◌≡◌, refl, ap, ◌∙◌, none, some, Option-cases, inl, inr,
}
use toasty_driver_surreal.Error.{Result, ok, ◌>>=◌}
use toasty_driver_surreal.Schema.{Column}
use toasty_driver_surreal.Value.{
  Value, Number, SurValue, Array, Object, JsonValue, JsonValues, JsonMembers, DbType,
}
use toasty_driver_surreal.Value.Codec.{Codec, parsed, printed}
use toasty_driver_surreal.Value.Encode.{to_surreal_for_column}
use toasty_driver_surreal.Value.Decode.{from_surreal_for_column}
use toasty_driver_surreal.Value.Json.{
  json_value_to_surreal, json_values_to_array, json_members_to_object, json_text_to_surreal,
  surreal_to_json_value, array_to_json_values, object_to_json_members, json_text,
  surreal_json_to_text,
}
use toasty_driver_surreal.Value.Json.Order.{
  KeysBelow, NamesBelow, put_last, member_last, append, join_members, append-put_last,
  join_members-member_last, Behind, MembersBehind, After, Behind-put_last,
  MembersBehind-member_last, Behind-end, MembersBehind-end, append-end, join_members-end,
}

-- Objects and JSON maps keep their entries in key order, a JSON number is what one of `as_i64`,
-- `as_u64` and `as_f64` says it is, and the text of a decimal parses as the number it came from.
pub record IsLawfulJson (C : Codec) : Type 0 where
  pub insert_last :
      (o : Object) (k : String) (v : SurValue)
      → KeysBelow o k
      → C.object_insert k v o ≡ put_last o k v
  pub map_insert_last :
      (m : JsonMembers) (k : String) (v : JsonValue)
      → NamesBelow m k
      → C.map_insert k v m ≡ member_last m k v
  pub from_i64 : (n : ℕ) (i : ℤ) → C.as_i64 n ≡ some i → C.number_from_i64 i ≡ n
  pub from_u64 :
      (n u : ℕ)
      → C.as_i64 n ≡ none
      → C.as_u64 n ≡ some u
      → C.parse_json (C.decimal_to_string (C.decimal_from_u64 u)) ≡ parsed (JsonValue.number n)
  pub from_f64 :
      (n f : ℕ)
      → C.as_i64 n ≡ none
      → C.as_u64 n ≡ none
      → C.as_f64 n ≡ some f
      → C.number_from_f64 f ≡ some n
  pub has_form : (n : ℕ) → C.as_i64 n ≡ none → C.as_u64 n ≡ none → (f : ℕ) × (C.as_f64 n ≡ some f)

-- the names of each object, at every depth, ascend
unfoldable mutual
  pub Ascending : JsonValue → Type 0
  Ascending (JsonValue.array vs) = AllAscending vs
  Ascending (JsonValue.object ms) = AscendingMembers ms
  Ascending _ = Unit

  pub AllAscending : JsonValues → Type 0
  AllAscending JsonValues.nil = Unit
  AllAscending (JsonValues.cons v vs) = Ascending v × AllAscending vs

  pub AscendingMembers : JsonMembers → Type 0
  AscendingMembers JsonMembers.end = Unit
  AscendingMembers (JsonMembers.member n v ms) = After n ms × Ascending v × AscendingMembers ms

module _ (C : Codec) (L : IsLawfulJson C) where
  -- `j` has a native form, which converts back to it
  abbrev Native : JsonValue → Type 0
  Native j =
      (s : SurValue) × (json_value_to_surreal C j ≡ ok s) × (surreal_to_json_value C s ≡ ok j)

  abbrev NativeArray : JsonValues → Type 0
  NativeArray vs =
      (a : Array) × (json_values_to_array C vs ≡ ok a) × (array_to_json_values C a ≡ ok vs)

  -- the loops, from any accumulator whose keys are before those to come
  abbrev NativeMembers : JsonMembers → Type 0
  NativeMembers ms =
      (o : Object) × ((out : Object)
        → Behind ms out
        → json_members_to_object C ms out ≡ ok (append out o))
      × ((out : JsonMembers)
          → MembersBehind ms out
          → object_to_json_members C o out ≡ ok (join_members out ms))

  Native-number : (n : ℕ) → Native (JsonValue.number n)
  unfolding json_value_to_surreal surreal_to_json_value
  Native-number n = elim (Option-cases (C.as_i64 n)) [
    | inr (i, e) ↦ (SurValue.number (Number.int i), rw e refl, rw (L.from_i64 n i e) refl)
    | inl e ↦ elim (Option-cases (C.as_u64 n)) [
      | inr (u, d) ↦ (
        SurValue.number (Number.decimal (C.decimal_from_u64 u)),
        rw (e, d) refl,
        rw (L.from_u64 n u e d) refl,
      )
      | inl d ↦
          let (f, g) = L.has_form n e d in
          (SurValue.number (Number.float f), rw (e, d, g) refl, rw (L.from_f64 n f e d g) refl)
    ]
  ]

  mutual
    unfolding Ascending json_value_to_surreal surreal_to_json_value

    native : (j : JsonValue) → Ascending j → Native j
    native JsonValue.null h = (SurValue.null, refl, refl)
    native (JsonValue.bool b) h = (SurValue.bool b, refl, refl)
    native (JsonValue.number n) h = Native-number n
    native (JsonValue.string s) h = (SurValue.string s, refl, refl)
    native (JsonValue.array vs) h =
        let (a, e, d) = native_array vs h in (SurValue.array a, rw e refl, rw d refl)
    native (JsonValue.object ms) h =
        let (o, e, d) = native_members ms h in
        (
          SurValue.object o,
          rw (e Object.end (Behind-end ms)) refl,
          rw (d JsonMembers.end (MembersBehind-end ms)) refl,
        )

    native_array : (vs : JsonValues) → AllAscending vs → NativeArray vs
    native_array JsonValues.nil h = (Array.nil, refl, refl)
    native_array (JsonValues.cons v vs) h =
        let (s, e, d) = native v h.0 in
        let (a, es, ds) = native_array vs h.1 in (Array.cons s a, rw (e, es) refl, rw (d, ds) refl)

    native_members : (ms : JsonMembers) → AscendingMembers ms → NativeMembers ms
    native_members JsonMembers.end h =
        (Object.end, λ out b. rw append-end refl, λ out b. rw join_members-end refl)
    native_members (JsonMembers.member n v ms) h =
        let (s, e, d) = native v h.1 in
        let (o, es, ds) = native_members ms h.2 in
        (
          Object.entry n s o,
          λ out b.
              rw (e, L.insert_last out n s b.0)
                (es (put_last out n s) (Behind-put_last ms out n s b.1 h.0)
                  ∙ ap ok (append-put_last out o n s)),
          λ out b.
              rw (d, L.map_insert_last out n v b.0)
                (ds (member_last out n v) (MembersBehind-member_last ms out n v b.1 h.0)
                  ∙ ap ok (join_members-member_last out ms n v)),
        )

  printed_text :
      (r : Result JsonValue) {j : JsonValue} {u : String}
      → r ≡ ok j
      → C.print_json j ≡ printed u
      → (r >>= λ json. json_text C (C.print_json json)) ≡ ok (Value.string u)
  unfolding json_text
  printed_text r h p = rw (h, p) refl

  -- a native form is never `NONE`, so it goes back through its JSON value
  text_of_native :
      (s : SurValue) {j : JsonValue} {u : String}
      → surreal_to_json_value C s ≡ ok j
      → C.print_json j ≡ printed u
      → surreal_json_to_text C s ≡ ok (Value.string u)
  unfolding surreal_json_to_text
  text_of_native SurValue.none h p = cc
  text_of_native _ h p = printed_text _ h p

  -- For every lawful codec, JSON text that parses to a value whose objects have their names in
  -- order is written to a native JSON column, and reading the column gives the print of that same
  -- value: nulls inside objects, large unsigned numbers and the order of arrays are all kept.
  pub json_round_trip :
      (column : Column) (t u : String) (j : JsonValue)
      → column.storage_ty ≡ DbType.json
      → C.parse_json t ≡ parsed j
      → Ascending j
      → C.print_json j ≡ printed u
      → (to_surreal_for_column C (Value.string t) column >>= λ s.
          from_surreal_for_column C s column)
        ≡ ok (Value.string u)
  unfolding to_surreal_for_column from_surreal_for_column json_text_to_surreal
  json_round_trip column t u j storage parses ascending prints =
      let (s, e, d) = native j ascending in rw (storage, parses, e) (text_of_native s d prints)
