-- ===== src/Driver.antt =====
-- src/lib.rs: the driver, its configuration and the handle that its clones share. A path is the
-- text that its `display` gives.
pub mod Capability
pub mod Handle
use toasty_driver_surreal.Prelude.{ℕ, String, ◌<>◌, Bool, true, false, List, Option, none, some}
use toasty_driver_surreal.Error.{Result, ok, err, driver_operation_failed, ◌>>=◌}
use toasty_driver_surreal.Conn.Sdk.{Answer, done, failed, Sdk}
use toasty_driver_surreal.Conn.Session.{Connection, new}
use toasty_driver_surreal.Conn.Failures.{classify_error, map_err}

pub data Engine : Type 0 where
  mem : Engine
  remote surrealkv rocksdb : String → Engine

-- `SurrealDb` without its `handle`, which is behind an `Arc` and stands apart
pub record SurrealDb : Type 0 where
  pub engine : Engine
  pub namespace : String
  pub database : String

abbrev pub default_ns : String
default_ns = "toasty"

abbrev pub default_db : String
default_db = "toasty"

unfoldable pub with_engine : Engine → SurrealDb
with_engine engine = record { engine = engine; namespace = default_ns; database = default_db }

abbrev pub in_memory : SurrealDb
in_memory = with_engine Engine.mem

abbrev pub http : String → SurrealDb
http address = with_engine (Engine.remote address)

abbrev pub ws : String → SurrealDb
ws address = with_engine (Engine.remote address)

abbrev pub at_surrealkv : String → SurrealDb
at_surrealkv path = with_engine (Engine.surrealkv path)

abbrev pub at_rocksdb : String → SurrealDb
at_rocksdb path = with_engine (Engine.rocksdb path)

unfoldable pub set_namespace : SurrealDb → String → SurrealDb
set_namespace driver ns = record driver { namespace = ns }

unfoldable pub set_database : SurrealDb → String → SurrealDb
set_database driver db = record driver { database = db }

-- where the shared handle is opened
unfoldable pub endpoint : Engine → String
endpoint Engine.mem = "mem://"
endpoint (Engine.remote url) = url
endpoint (Engine.surrealkv path) = "surrealkv://" <> path
endpoint (Engine.rocksdb path) = "rocksdb://" <> path

unfoldable pub url : SurrealDb → String
url driver = elim driver.engine [
  | Engine.mem ↦ "surrealdb:mem"
  | Engine.remote address ↦ address
  | Engine.surrealkv path ↦ "surrealdb:surrealkv:" <> path
  | Engine.rocksdb path ↦ "surrealdb:rocksdb:" <> path
]

unfoldable pub max_connections : SurrealDb → Option ℕ
max_connections driver = elim driver.engine [
  | Engine.mem ↦ some 1
  | Engine.remote address ↦ none
  | Engine.surrealkv path ↦ none
  | Engine.rocksdb path ↦ none
]

abbrev pub file_path : Engine → Option String
file_path Engine.mem = none
file_path (Engine.remote address) = none
file_path (Engine.surrealkv path) = some path
file_path (Engine.rocksdb path) = some path

-- What the driver uses of the surrealdb crate and of the file system, on a state `W` of both:
-- handles `H`, and the sessions `S` that clones of them are.
pub record World (W H S : Type 0) : Type 0 where
  -- `engine::any::connect`
  pub connect : String → W → Answer H × W
  -- `clone()` of a handle
  pub clone : H → W → S × W
  -- `use_ns(..).use_db(..)` of a namespace and a database
  pub use_ns_db : S → String → String → W → Answer (Unit {0}) × W
  -- `path.exists()`
  pub exists : String → W → Bool
  -- `remove_dir_all`, with the text of its error
  pub remove_dir_all : String → W → Option String × W

-- the slot for the handle, which all clones of a driver share, with the state of the world
pub record Shared (W H : Type 0) : Type 0 where
  pub handle : Option H
  pub state : W

module _ {W H S : Type 0} (world : World W H S) where
  -- a session-scoped clone with the namespace and the database selected
  select : SurrealDb → H → W → Result S × Shared W H
  select driver h w =
      let (session, cloned) = world.clone h w in
      let (answer, after) = world.use_ns_db session driver.namespace driver.database cloned in
      (map_err classify_error answer >>= λ u. ok session, record { handle = some h; state = after })

  opened : SurrealDb → Answer H × W → Result S × Shared W H
  unfolding select classify_error
  opened driver (failed failure, w) =
      (err (classify_error failure), record { handle = none; state = w })
  opened driver (done h, w) = select driver h w

  session_from : SurrealDb → Option H → W → Result S × Shared W H
  unfolding opened select endpoint
  session_from driver none w = opened driver (world.connect (endpoint driver.engine) w)
  session_from driver (some h) w = select driver h w

  unfoldable pub session : SurrealDb → Shared W H → Result S × Shared W H
  unfolding session_from
  session driver shared = session_from driver shared.handle shared.state

  module _ {T R : Type 0} (sdk : Sdk S T R) where
    -- `Driver::connect`
    unfoldable pub connect : SurrealDb → Shared W H → Result (Connection S T) × Shared W H
    unfolding session new
    connect driver shared =
        let (result, after) = session driver shared in (result >>= λ s. ok (new sdk s), after)

  removed : Option String × W → Result (Unit {0}) × Shared W H
  removed (none, w) = (ok tt, record { handle = none; state = w })
  removed (some message, w) =
      (err (driver_operation_failed message), record { handle = none; state = w })

  remove_if : Bool → String → W → Result (Unit {0}) × Shared W H
  unfolding removed
  remove_if true path w = removed (world.remove_dir_all path w)
  remove_if false path w = (ok tt, record { handle = none; state = w })

  remove_path : Option String → W → Result (Unit {0}) × Shared W H
  unfolding remove_if
  remove_path none w = (ok tt, record { handle = none; state = w })
  remove_path (some path) w = remove_if (world.exists path w) path w

  -- the handle is dropped before the files are removed
  unfoldable pub reset_db : SurrealDb → Shared W H → Result (Unit {0}) × Shared W H
  unfolding remove_path
  reset_db driver shared = remove_path (file_path driver.engine) shared.state
