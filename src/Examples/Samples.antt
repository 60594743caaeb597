-- ===== src/Examples/Samples.antt =====
-- Concrete data for the examples: a codec, columns, tables and an expression context.
use Prim.Native.Char.{code}
use toasty_driver_surreal.Prelude.{
  some-injective, List, ℕ, ℤ, pos, negsuc, zero, suc, ◌+◌, ◌*◌, ◌<◌, ◌/◌, ◌%◌, String, Option, none,
  some, [], ◌∷◌, true, false, ◌≡◌, refl, ap, ◌∙◌, sym, arith, if◌then◌else◌, ◌==◌, str_eq, map,
  find,
}
use toasty_driver_surreal.Text.{decimal}
use toasty_driver_surreal.Text.Decimal.{read_digits, read_digits-decimal}
use toasty_driver_surreal.Schema.{ColumnId, Column, Index, Table, Catalog, same_column}
use toasty_driver_surreal.Value.{
  StmtType, DbType, Value, Number, SurValue, Object, JsonValue, JsonValues, JsonMembers,
}
use toasty_driver_surreal.Value.Codec.{Codec, Parsed, parsed, malformed, printed}
use toasty_driver_surreal.Value.RoundTrip.{IsLawful}
use toasty_driver_surreal.Value.Json.Order.{put_last, member_last}
use toasty_driver_surreal.Value.Json.RoundTrip.{IsLawfulJson}
use toasty_driver_surreal.Expr.{ExprContext}
use toasty_driver_surreal.Migration.Diff.{ColumnDiff}

-- A JSON number token is four times a magnitude and a form: a natural number, a negative one, an
-- unsigned one above the signed range, and a float.
abbrev as_i64 : ℕ → ℕ → Option ℤ
as_i64 zero q = some (pos q)
as_i64 (suc zero) q = some (negsuc q)
as_i64 _ q = none

abbrev as_u64 : ℕ → ℕ → Option ℕ
as_u64 (suc (suc zero)) q = some q
as_u64 _ q = none

abbrev as_f64 : ℕ → ℕ → Option ℕ
as_f64 _ q = some q

abbrev from_i64 : ℤ → ℕ
from_i64 (pos q) = 4 * q
from_i64 (negsuc q) = 4 * q + 1

-- the magnitude of `i64::MAX` and one, as an unsigned token
abbrev pub big_token : ℕ
big_token = 36893488147419103234

-- {"flag": null, "size": [9223372036854775808, "x"]}
abbrev pub document : JsonValue
document = JsonValue.object (
    JsonMembers.member "flag" JsonValue.null (
      JsonMembers.member "size"
        (JsonValue.array (
          JsonValues.cons (JsonValue.number big_token)
            (JsonValues.cons (JsonValue.string "x") JsonValues.nil)))
        JsonMembers.end))

-- A text that begins with `+` is a decimal; the others are the document.
abbrev parse : String → Parsed
parse String.[] = malformed 1 1 "no text"
parse (String.◌∷◌ c s) =
    if code c == b'+' then parsed (JsonValue.number (4 * read_digits 0 s + 2)) else parsed document

abbrev to_int : Number → Option ℤ
to_int (Number.int z) = some z
to_int (Number.decimal d) = some (pos d)
to_int (Number.float f) = none

abbrev to_f64 : Number → Option ℕ
to_f64 (Number.float f) = some f
to_f64 n = none

abbrev pub codec : Codec
codec = record {
  document_storage_text = λ n. some (decimal n);
  cast = λ ty s. some (Value.other (read_digits 0 s));
  debug_value = λ v. "value";
  debug_type = λ ty. "type";
  object_insert = λ k v o. put_last o k v;
  number_to_int = to_int;
  number_to_f64 = to_f64;
  debug_sur_value = λ s. "value";
  debug_record_id_key = λ k. "key";
  parse_uuid = λ s. some (read_digits 0 s);
  decimal_from_u64 = λ u. u;
  decimal_to_u64 = λ d. some d;
  decimal_to_string = λ d. String.◌∷◌ "+" (decimal d);
  f32_to_f64 = λ f. f;
  f64_to_f32 = λ f. f;
  f64_to_u64 = λ f. f;
  as_i64 = λ n. as_i64 (n % 4) (n / 4);
  as_u64 = λ n. as_u64 (n % 4) (n / 4);
  as_f64 = λ n. as_f64 (n % 4) (n / 4);
  number_from_i64 = from_i64;
  number_from_f64 = λ f. some (4 * f + 3);
  map_insert = λ k v m. member_last m k v;
  parse_json = parse;
  print_json = λ j. printed "document";
}

pub codec-IsLawful : IsLawful codec
codec-IsLawful = record {
  to_int_of_int = λ z. refl;
  to_f64_of_float = λ f. refl;
  decimal_exact = λ u h. refl;
  f32_exact = λ f. refl;
}

from_i64-as_i64 : (n r q : ℕ) (i : ℤ) → n ≡ 4 * q + r → as_i64 r q ≡ some i → from_i64 i ≡ n
from_i64-as_i64 n zero q i e h = ap from_i64 (sym (some-injective h)) ∙ omega arith
from_i64-as_i64 n (suc zero) q i e h = ap from_i64 (sym (some-injective h)) ∙ omega arith
from_i64-as_i64 n (suc (suc r)) q i e h = cc

token_of_u64 : (n r q u : ℕ) → n ≡ 4 * q + r → as_u64 r q ≡ some u → 4 * u + 2 ≡ n
token_of_u64 n zero q u e h = cc
token_of_u64 n (suc zero) q u e h = cc
token_of_u64 n (suc (suc zero)) q u e h = ap (λ k. 4 * k + 2) (sym (some-injective h)) ∙ omega arith
token_of_u64 n (suc (suc (suc r))) q u e h = cc

token_of_f64 :
    (n r q f : ℕ)
    → n ≡ 4 * q + r
    → r < 4
    → as_i64 r q ≡ none
    → as_u64 r q ≡ none
    → as_f64 r q ≡ some f
    → 4 * f + 3 ≡ n
token_of_f64 n zero q f e l hi hu hf = cc
token_of_f64 n (suc zero) q f e l hi hu hf = cc
token_of_f64 n (suc (suc zero)) q f e l hi hu hf = cc
token_of_f64 n (suc (suc (suc zero))) q f e l hi hu hf =
    ap (λ k. 4 * k + 3) (sym (some-injective hf)) ∙ omega arith
token_of_f64 n (suc (suc (suc (suc r)))) q f e l hi hu hf = absurd (omega arith)

pub codec-IsLawfulJson : IsLawfulJson codec
codec-IsLawfulJson = record {
  insert_last = λ o k v b. refl;
  map_insert_last = λ m k v b. refl;
  from_i64 = λ n i h. from_i64-as_i64 n (n % 4) (n / 4) i (omega arith) h;
  from_u64 = λ n u hi hu.
      ap (λ k. parsed (JsonValue.number (4 * k + 2))) (read_digits-decimal u)
      ∙ ap (λ k. parsed (JsonValue.number k)) (token_of_u64 n (n % 4) (n / 4) u (omega arith) hu);
  from_f64 = λ n f hi hu hf.
      ap some (token_of_f64 n (n % 4) (n / 4) f (omega arith) (omega arith) hi hu hf);
  has_form = λ n hi hu. (n / 4, refl);
}

abbrev column : ℕ → String → StmtType → DbType → Column
column n name ty storage = record {
  id = record { table = 0; index = n };
  name = name;
  ty = ty;
  storage_ty = storage;
}

abbrev pub user_id : Column
user_id = column 0 "id" StmtType.u64 (DbType.other 0)

abbrev pub active : Column
active = column 1 "acti`ve" StmtType.bool (DbType.other 1)

abbrev pub profile : Column
profile = column 2 "profile" StmtType.string DbType.json

abbrev pub sizes : Column
sizes = column 3 "sizes" (StmtType.list StmtType.u64) (DbType.other 2)

abbrev pub group_id : Column
group_id = column 4 "group_id" StmtType.u64 (DbType.other 0)

abbrev pub profile_index : Index
profile_index = record {
  name = "by_profile";
  columns = profile.id ∷ [];
  unique = true;
  primary_key = false;
}

abbrev pub users : Table
users = record {
  name = "users";
  columns = user_id ∷ active ∷ profile ∷ sizes ∷ [];
  primary_key = user_id.id ∷ [];
  indices = profile_index ∷ [];
}

abbrev pub members : Table
members = record {
  name = "members";
  columns = user_id ∷ active ∷ group_id ∷ [];
  primary_key = user_id.id ∷ group_id.id ∷ [];
  indices = [];
}

abbrev resolved : ℕ → Column
resolved zero = user_id
resolved (suc zero) = active
resolved (suc (suc zero)) = profile
resolved (suc (suc (suc zero))) = sizes
resolved _ = group_id

abbrev pub context : ExprContext
context = record { resolve = resolved; debug_op = λ op. "op"; debug_expr = λ e. "expr" }

abbrev or_user_id : Option Column → Column
or_user_id none = user_id
or_user_id (some c) = c

abbrev column_of : Table → ColumnId → Column
column_of table id = or_user_id (find (λ c. same_column c.id id) table.columns)

-- a projection of one step is the column with that index
abbrev resolve_steps : Table → List ℕ → Column
resolve_steps table (index ∷ []) = or_user_id (find (λ c. c.id.index == index) table.columns)
resolve_steps table steps = user_id

abbrev pub catalog : Catalog
catalog = record {
  column = column_of;
  primary_key_columns = λ table. map (column_of table) table.primary_key;
  resolve = resolve_steps;
}

-- `Object::get`
abbrev pub lookup : Object → String → Option SurValue
lookup Object.end name = none
lookup (Object.entry n v o) name = if str_eq n name then some v else lookup o name

-- `profile` renamed, and `sizes` gone
abbrev pub biography : Column
biography = column 2 "biography" StmtType.string DbType.json

abbrev pub users_after : Table
users_after = record {
  name = "users";
  columns = user_id ∷ active ∷ biography ∷ [];
  primary_key = user_id.id ∷ [];
  indices = profile_index ∷ [];
}

abbrev pub column_changes : List ColumnDiff
column_changes = ColumnDiff.alter profile biography ∷ ColumnDiff.drop sizes ∷ []
