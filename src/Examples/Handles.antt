-- ===== src/Examples/Handles.antt =====
-- The theorem on the shared handle at a concrete input: connecting fails at an empty address.
use toasty_driver_surreal.Prelude.{
  ℕ, suc, true, false, List, [], ◌∷◌, none, some, ◌≡◌, refl, ◌⊎◌, All, str_eq, if◌then◌else◌,
}
use toasty_driver_surreal.Conn.Sdk.{Failure, done, failed}
use toasty_driver_surreal.Driver.{
  SurrealDb, World, Shared, in_memory, http, ws, at_surrealkv, at_rocksdb, url, max_connections,
  reset_db, with_engine, set_namespace,
}
use toasty_driver_surreal.Driver.Capability.{Capability, surrealdb_capability}
use toasty_driver_surreal.Driver.Handle.{session_all, IsCloneOf, IsClosed, session_all-IsCloneOf}

abbrev unreachable : Failure
unreachable = record { message = "no address"; conflicts = [] }

-- handles are numbered, and a session is the number of its handle with the state at its making
abbrev world : World ℕ ℕ (ℕ × ℕ)
world = record {
  connect = λ address w. if str_eq address "" then (failed unreachable, w) else (done w, suc w);
  clone = λ h w. ((h, w), suc w);
  use_ns_db = λ s ns db w. (done tt, w);
  exists = λ path w. false;
  remove_dir_all = λ path w. (none, w);
}

abbrev drivers : List SurrealDb
drivers = http "" ∷ in_memory ∷ set_namespace in_memory "tenant" ∷ []

abbrev empty : Shared ℕ ℕ
empty = record { handle = none; state = 0 }

session_all-IsCloneOf_example :
    (((session_all world drivers empty).1.handle ≡ none)
      × All (IsClosed world) (session_all world drivers empty).0
      × (empty.handle ≡ none))
    ⊎ ((h : ℕ) × ((session_all world drivers empty).1.handle ≡ some h)
        × All (IsCloneOf world h) (session_all world drivers empty).0
        × ((empty.handle ≡ none) ⊎ (empty.handle ≡ some h)))
session_all-IsCloneOf_example = session_all-IsCloneOf world drivers empty

-- What a driver says of itself, for each engine.
memory_capped : max_connections in_memory ≡ some 1
unfolding max_connections with_engine
memory_capped = refl

urls :
    (url in_memory ≡ "surrealdb:mem")
    × (url (ws "ws://host") ≡ "ws://host")
    × (url (at_surrealkv "data") ≡ "surrealdb:surrealkv:data")
    × (url (at_rocksdb "data") ≡ "surrealdb:rocksdb:data")
unfolding url with_engine
urls = (refl, refl, refl, refl)

reset_empties :
    (reset_db world (at_rocksdb "data") (record { handle = some 4; state = 9 })).1
    ≡ record { handle = none; state = 9 }
unfolding reset_db with_engine
reset_empties = refl

-- The profile is one of a key-value store, and keeps the rest of its base, `native_jsonb` included.
key_value :
    {D P F : Type 0} (dynamodb : Capability D P F)
    → ((surrealdb_capability dynamodb).sql ≡ none)
      × ((surrealdb_capability dynamodb).sql_placeholder ≡ none)
      × ((surrealdb_capability dynamodb).scan ≡ true)
      × ((surrealdb_capability dynamodb).scan_supports_sort ≡ false)
      × ((surrealdb_capability dynamodb).index_or_predicate ≡ true)
      × ((surrealdb_capability dynamodb).upsert_primary_key ≡ true)
      × ((surrealdb_capability dynamodb).native_json ≡ true)
      × ((surrealdb_capability dynamodb).native_jsonb ≡ dynamodb.native_jsonb)
      × ((surrealdb_capability dynamodb).other_fields ≡ dynamodb.other_fields)
unfolding surrealdb_capability
key_value dynamodb = (refl, refl, refl, refl, refl, refl, refl, refl, refl)
