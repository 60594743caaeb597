-- ===== src/Examples/Pages.antt =====
-- The theorems on selects at concrete inputs: three rows with the keys 1, 2 and 3.
use toasty_driver_surreal.Prelude.{
  ℕ, pos, Bool, true, false, List, [], ◌∷◌, Option, none, some, ◌≡◌, refl, inl, inr, In, All, take,
  map, ltb, arith, Bool-cases,
}
use toasty_driver_surreal.Error.{ok}
use toasty_driver_surreal.Value.{Value, Values, Number, SurValue, Object}
use toasty_driver_surreal.Value.Encode.{to_surreal}
use toasty_driver_surreal.Value.Decode.{from_surreal, from_surreal_for_column}
use toasty_driver_surreal.Expr.{Binds}
use toasty_driver_surreal.Conn.Sdk.{done, Sdk}
use toasty_driver_surreal.Conn.Session.{Connection}
use toasty_driver_surreal.Op.{ExecResponse, row_to_record, field_of}
use toasty_driver_surreal.Op.QueryPk.{Direction, Pagination, KeysetSelect, run_keyset_select}
use toasty_driver_surreal.Op.QueryPk.Slices.{above}
use toasty_driver_surreal.Op.QueryPk.Follow.{read_pages}
use toasty_driver_surreal.Op.QueryPk.Found.{Matching, Readable, rows_array}
use toasty_driver_surreal.Op.QueryPk.Pages.{IsServed, read_pages_whole}
use toasty_driver_surreal.Op.QueryPk.Ends.{IsFiltered, read_pages_ends}
use toasty_driver_surreal.Op.QueryPk.Records.{IsRecordOf, run_keyset_select-IsRecordOf}
use toasty_driver_surreal.Examples.Samples.{codec, lookup, user_id}

abbrev keyed : ℕ → Object
keyed i =
    Object.entry "id" (SurValue.number (Number.int (pos i)))
      (Object.entry "__toasty_sort_key" (SurValue.number (Number.int (pos i))) Object.end)

abbrev key : Object → SurValue
key Object.end = SurValue.none
key (Object.entry name v o) = v

-- the number of a key
abbrev rank : SurValue → ℕ
rank (SurValue.number (Number.int (pos i))) = i
rank _ = 0

abbrev less : SurValue → SurValue → Bool
less a b = ltb (rank a) (rank b)

abbrev matching : List Object → Matching (List Object)
matching rows = record {
  rows = rows;
  key = key;
  cursor = λ row. Value.u64 (rank (key row));
  decoded = λ row. Value.record_value (Values.cons (Value.u64 (rank (key row))) Values.nil);
  less = less;
  answer = λ found. found;
}

abbrev three : List Object
three = keyed 1 ∷ keyed 2 ∷ keyed 3 ∷ []

abbrev twins : List Object
twins = keyed 1 ∷ keyed 1 ∷ []

-- a server that takes some of the rows above the bound cursor
abbrev behind_cursor : List Object → Binds → List Object
behind_cursor rows [] = rows
behind_cursor rows ((name, c) ∷ binds) = above key less c rows

abbrev paging : List Object → ℕ → Sdk (Unit {0}) ℕ (List Object)
paging rows n = record {
  query = λ sql binds s. (done (take n (behind_cursor rows binds)), s);
  query_in = λ t sql binds s. (done [], s);
  begin = λ s. (done 1, s);
  commit = λ t s. (done tt, s);
  cancel = λ t s. (done tt, s);
  check = λ r. done r;
  take = λ r index. done (SurValue.array (rows_array r));
  parse_u64 = λ s. none;
}

abbrev unlimited : List Object → Sdk (Unit {0}) ℕ (List Object)
unlimited rows = record (paging rows 0) {
  query = λ sql binds s. (done (behind_cursor rows binds), s);
}

abbrev conn : Connection (Unit {0}) ℕ
conn = record { server = tt; transaction = none; read_only = false }

abbrev input : KeysetSelect
input = record {
  table_name = "`users`";
  projection = "record::id(id) AS `id`";
  predicate = some "true";
  sort_ref = "record::id(id)";
  sort_column = some user_id;
  order = none;
  limit = some (Pagination.cursor 2 none);
  binds = [];
  select = user_id ∷ [];
}

three-Readable :
    All
      (Readable codec lookup (paging three 2) input 2 "true" user_id Direction.asc (matching three))
      three
unfolding to_surreal from_surreal row_to_record from_surreal_for_column field_of
three-Readable =
    ((refl, refl, refl, refl), ((refl, refl, refl, refl), ((refl, refl, refl, refl), tt)))

three-IsServed :
    IsServed codec lookup
      (paging three 2)
      input
      2
      "true"
      user_id
      Direction.asc
      (matching three)
      conn
three-IsServed = record {
  asymmetric = λ a b h. ground arith;
  ascending = ((refl, (refl, tt)), ((refl, tt), (tt, tt)));
  first = refl;
  resumed = λ c. refl;
  answers = record { passed = λ rows. refl; taken = λ rows. refl };
}

read_pages_whole_example :
    read_pages codec lookup (paging three 2) input 2 4 conn none
    ≡ some (map (matching three).decoded three)
read_pages_whole_example =
    read_pages_whole codec lookup (paging three 2) input 2 "true" user_id Direction.asc
      (matching three) conn three-IsServed refl refl refl refl (omega arith) three-Readable 4
      (omega arith)

above-behind :
    (c : SurValue) (xs rows : List Object)
    → ((x : Object) → In x xs → In x rows)
    → All (λ row. In row rows × (less c (key row) ≡ true)) (above key less c xs)
above-behind c [] rows f = tt
above-behind c (x ∷ xs) rows f = elim (Bool-cases (less c (key x))) [
  | inl e ↦ rw e ((f x (inl refl), e), above-behind c xs rows (λ y i. f y (inr i)))
  | inr e ↦ rw e (above-behind c xs rows (λ y i. f y (inr i)))
]

abbrev chosen : Option SurValue → List Object
chosen none = twins
chosen (some c) = above key less c twins

twins-IsFiltered :
    IsFiltered codec lookup
      (unlimited twins)
      input
      2
      "true"
      user_id
      Direction.asc
      (matching twins)
      conn
      chosen
twins-IsFiltered = record {
  transitive = λ a b c h k. ground arith;
  irreflexive = λ a. ground arith;
  first = refl;
  resumed = λ c. refl;
  selected = (inl refl, (inr (inl refl), tt));
  behind = λ c. above-behind c twins twins (λ x i. i);
  answers = record { passed = λ rows. refl; taken = λ rows. refl };
}

twins-Readable :
    All
      (Readable codec lookup
        (unlimited twins)
        input
        2
        "true"
        user_id
        Direction.asc
        (matching twins))
      twins
unfolding to_surreal from_surreal row_to_record from_surreal_for_column field_of
twins-Readable = ((refl, refl, refl, refl), ((refl, refl, refl, refl), tt))

read_pages_ends_example :
    (values : List Value) × (read_pages codec lookup (unlimited twins) input 2 3 conn none
      ≡ some values)
read_pages_ends_example =
    read_pages_ends codec lookup (unlimited twins) input 2 "true" user_id Direction.asc
      (matching twins) conn chosen twins-IsFiltered refl refl refl refl twins-Readable 3
      (omega arith)

abbrev first_page : List Value
first_page = map (matching three).decoded (take 2 three)

first_page-run :
    (run_keyset_select codec lookup (paging three 2) conn input).0
    ≡ ok (ExecResponse.page first_page (some (Value.u64 2)))
unfolding run_keyset_select from_surreal from_surreal_for_column field_of
first_page-run = refl

run_keyset_select-IsRecordOf_example : All (IsRecordOf 1) first_page
run_keyset_select-IsRecordOf_example =
    run_keyset_select-IsRecordOf codec lookup (paging three 2) conn input first_page
      (some (Value.u64 2)) first_page-run

-- A row whose sort key is the cursor's is on no later page: of the twins only one is read.
twins_read :
    read_pages codec lookup (paging twins 1) input 1 3 conn none
    ≡ some ((matching twins).decoded (keyed 1) ∷ [])
unfolding read_pages run_keyset_select from_surreal from_surreal_for_column field_of
twins_read = refl

-- The same three rows, read from the greatest key down.
abbrev three_down : List Object
three_down = keyed 3 ∷ keyed 2 ∷ keyed 1 ∷ []

abbrev down_from : Binds → List Object
down_from [] = three_down
down_from ((name, c) ∷ binds) = above key (λ a b. less b a) c three_down

abbrev paging_down : Sdk (Unit {0}) ℕ (List Object)
paging_down = record (paging three_down 2) {
  query = λ sql binds s. (done (take 2 (down_from binds)), s);
}

abbrev descending : KeysetSelect
descending = record input { order = some Direction.desc }

three_down-read :
    read_pages codec lookup paging_down descending 2 4 conn none
    ≡ some (map (matching three_down).decoded three_down)
unfolding read_pages run_keyset_select from_surreal from_surreal_for_column field_of
three_down-read = refl
