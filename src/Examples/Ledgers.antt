-- ===== src/Examples/Ledgers.antt =====
-- A server that keeps the ids of the migrations, and a migration applied on it.
use mathlib.Core.List.{map-append}
use toasty_driver_surreal.Prelude.{
  ℕ, ◌<◌, ◌^◌, String, true, false, Bool, List, [], ◌∷◌, ◌++◌, none, some, ◌≡◌, refl, ap, ◌∙◌, sym,
  subst, In, In-append, inl, map, ltb, str_eq, if◌then◌else◌, arith,
}
use toasty_driver_surreal.Text.{decimal}
use toasty_driver_surreal.Text.Decimal.{read_digits, read_digits-decimal}
use toasty_driver_surreal.Error.{ok}
use toasty_driver_surreal.Value.{SurValue, RecordIdKey, Object}
use toasty_driver_surreal.Expr.{Binds, escape_ident}
use toasty_driver_surreal.Conn.Sdk.{Failure, done, failed, Sdk}
use toasty_driver_surreal.Conn.Session.{Connection}
use toasty_driver_surreal.Conn.Migrations.{apply_migration, applied_migrations}
use toasty_driver_surreal.Conn.Migrations.Ledger.{
  ShowIds, IsLedger, applied_migrations-apply_migration,
}
use toasty_driver_surreal.Op.QueryPk.Found.{rows_array}
use toasty_driver_surreal.Examples.Samples.{lookup}

-- the ids of the open transaction are behind those committed
record IdServer : Type 0 where
  defined : Bool
  committed : List ℕ
  pending : List ℕ

-- a `u64`
abbrev clamp : ℕ → ℕ
clamp n = if ltb n (2 ^ 64) then n else 0

clamp-below : (n : ℕ) → clamp n < 2 ^ 64
clamp-below n = ground arith

clamp_same : (n : ℕ) → n < 2 ^ 64 → clamp n ≡ n
clamp_same n h = ground arith

abbrev id_row : ℕ → Object
id_row n = Object.entry "migration_id" (SurValue.string (decimal (clamp n))) Object.end

abbrev missing : Failure
missing = record { message = "The table '__toasty_migrations' does not exist"; conflicts = [] }

abbrev listing : String
listing = "SELECT record::id(id) AS `migration_id` FROM `__toasty_migrations`"

abbrev defining : String
defining = "DEFINE TABLE IF NOT EXISTS `__toasty_migrations` SCHEMALESS"

abbrev creating : String
creating =
    "CREATE $migration_record SET name = $migration_name, applied_at = time::now() RETURN NONE"

abbrev created_ids : Binds → List ℕ
created_ids ((name, SurValue.record_id table (RecordIdKey.key_string key)) ∷ rest) =
    read_digits 0 key ∷ []
created_ids _ = []

abbrev sdk : Sdk IdServer ℕ (List ℕ)
sdk = record {
  query = λ sql binds s.
      if str_eq sql listing
      then ((if s.defined then done s.committed else failed missing), s)
      else (done [], if str_eq sql defining then record s { defined = true } else s);
  query_in = λ t sql binds s. (
    done [],
    if str_eq sql creating then record s { pending = created_ids binds ++ s.pending } else s,
  );
  begin = λ s. (done 1, record s { pending = [] });
  commit = λ t s. (done tt, record s { committed = s.pending ++ s.committed; pending = [] });
  cancel = λ t s. (done tt, record s { pending = [] });
  check = λ r. done r;
  take = λ r index. done (SurValue.array (rows_array (map id_row r)));
  parse_u64 = λ s. some (read_digits 0 s);
}

abbrev ledger : IdServer → List ℕ
ledger s = map clamp s.committed

abbrev Ready : IdServer → Type 0
Ready s = s.defined ≡ true

abbrev Pending : ℕ → IdServer → ℕ → Type 0
Pending t s id = In id (map clamp s.pending)

rows-ShowIds : (ids : List ℕ) → ShowIds sdk lookup (map id_row ids) (map clamp ids)
rows-ShowIds [] = tt
rows-ShowIds (id ∷ ids) = ((refl, clamp-below id), rows-ShowIds ids)

commits :
    (s : IdServer) (id : ℕ)
    → In id (map clamp s.pending)
    → In id (map clamp (s.pending ++ s.committed))
commits s id h =
    subst (In id) (sym (map-append clamp s.pending s.committed))
      (In-append id (map clamp s.pending) (map clamp s.committed) (inl h))

sdk-IsLedger : IsLedger sdk lookup Ready ledger Pending
sdk-IsLedger = record {
  created = λ t s after r passed id name small asked checked.
      subst (λ reached. In id (map clamp reached.pending)) (ap (λ answer. answer.1) asked)
        (inl (ap clamp (read_digits-decimal id) ∙ clamp_same id small));
  committed = λ t s after id pending asked.
      subst (λ reached. In id (map clamp reached.committed)) (ap (λ answer. answer.1) asked)
        (commits s id pending);
  defined = λ s. ([], record s { defined = true }, refl, refl, refl, refl);
  listed = λ s ready.
      (s.committed, s, map id_row s.committed, rw ready refl, refl, refl, rows-ShowIds s.committed);
  parses = λ id small. ap some (read_digits-decimal id);
}

abbrev idle : Connection IdServer ℕ
idle = record {
  server = record { defined = false; committed = 5 ∷ []; pending = [] };
  transaction = none;
  read_only = false;
}

abbrev statements : List String
statements = "DEFINE TABLE `t`" ∷ " " ∷ []

migration_applies : (apply_migration sdk lookup idle 7 "seventh" statements).0 ≡ ok tt
unfolding apply_migration escape_ident
migration_applies = refl

applied_migrations-apply_migration_example :
    (ids : List ℕ) × ((applied_migrations sdk lookup
        (apply_migration sdk lookup idle 7 "seventh" statements).1).0
      ≡ ok ids)
    × In 7 ids
applied_migrations-apply_migration_example =
    applied_migrations-apply_migration sdk lookup sdk-IsLedger idle 7 "seventh" statements
      (omega arith) migration_applies

-- the ids that are then listed, the one from before included
listed_ids :
    (applied_migrations sdk lookup (apply_migration sdk lookup idle 7 "seventh" statements).1).0
    ≡ ok (7 ∷ 5 ∷ [])
unfolding apply_migration applied_migrations escape_ident read_digits
listed_ids = refl
