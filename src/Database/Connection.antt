-- ===== src/Database/Connection.antt =====
-- `PgAsyncSQLAlchemyAdapter` of backend/core/infrastructure/database/connection.py, which creates its
-- engines on first use, and `SessionFactory` of session.py beside it. SQLAlchemy's engines are numbered
-- as they are created; how each call of the package ends is given. Logs and the settings of the
-- engines are left out.
pub mod Engines
pub mod Uses
use backend_prod_ready.Prelude.{
  Bool, List, Option, [], false, if◌then◌else◌, is_none, keep, none, not, some, true, ℕ, ◌+◌, ◌==◌,
  ◌∷◌,
}
use backend_prod_ready.Exec.{Exec, Result, ok, raised, ◌>>◌, ◌>>=◌}

-- A factory or a session is known by the number of its engine.
pub record Adapter : Type 0 where
  pub engine : Option ℕ
  pub sync_engine : Option ℕ
  pub sync_session_factory : Option ℕ
  pub session_factory : Option ℕ
  pub async_scoped_session : Option ℕ
  pub initialized : Bool
  -- the number of engines created, and those not disposed of
  pub created : ℕ
  pub open_engines : List ℕ

-- `__init__`
abbrev pub new : Adapter
new = record {
  engine = none;
  sync_engine = none;
  sync_session_factory = none;
  session_factory = none;
  async_scoped_session = none;
  initialized = false;
  created = 0;
  open_engines = [];
}

-- An exception of the package, or the RuntimeError of a getter.
pub data ConnectionError : Type 0 where
  package_error not_initialized : ConnectionError

abbrev pub Action : Type 0 → Type 0
Action A = Exec Adapter ConnectionError A

-- How `_connect_sync` ends: both engines stand, or creating one or setting the listeners up raises.
pub data ConnectEnd : Type 0 where
  connected async_failed sync_failed listeners_failed : ConnectEnd

unfoldable pub create_async : Adapter → Adapter
create_async a = record a {
  engine = some a.created;
  session_factory = some a.created;
  async_scoped_session = some a.created;
  created = a.created + 1;
  open_engines = a.created ∷ a.open_engines;
}

unfoldable pub create_sync : Adapter → Adapter
create_sync a = record a {
  sync_engine = some a.created;
  sync_session_factory = some a.created;
  created = a.created + 1;
  open_engines = a.created ∷ a.open_engines;
}

-- `_connect_sync`
unfoldable pub connect_sync : ConnectEnd → Action (Unit {0})
unfolding create_async create_sync
connect_sync connected a = (ok tt, record (create_sync (create_async a)) { initialized = true })
connect_sync async_failed a = (raised package_error, a)
connect_sync sync_failed a = (raised package_error, create_async a)
connect_sync listeners_failed a = (raised package_error, create_sync (create_async a))

-- `_ensure_initialized`
unfoldable pub ensure_initialized : ConnectEnd → Action (Unit {0})
unfolding connect_sync
ensure_initialized end a = if a.initialized then (ok tt, a) else connect_sync end a

-- `initialize`, with whether the first statement over the new engine runs
unfoldable pub verify : Bool → Action (Unit {0})
verify true a = (ok tt, a)
verify false a = if is_none a.engine then (ok tt, a) else (raised package_error, a)

unfoldable pub initialize : ConnectEnd → Bool → Action (Unit {0})
unfolding connect_sync verify
initialize end answers a =
    if a.initialized then (ok tt, a) else (connect_sync end >> verify answers) a

abbrev pub without : ℕ → List ℕ → List ℕ
without n = keep (λ m. not (m == n))

-- `if engine: engine.dispose()`
unfoldable pub dispose_engine : Option ℕ → Adapter → Adapter
dispose_engine none a = a
dispose_engine (some n) a = record a { open_engines = without n a.open_engines }

-- How `dispose` ends: the exception of the first or the second engine leaves it open.
pub data DisposeEnd : Type 0 where
  disposed async_refused sync_refused : DisposeEnd

-- `dispose`
unfoldable pub dispose : DisposeEnd → Action (Unit {0})
unfolding dispose_engine
dispose disposed a = (
  ok tt,
  record (dispose_engine a.sync_engine (dispose_engine a.engine a)) { initialized = false },
)
dispose async_refused a = (raised package_error, a)
dispose sync_refused a = (raised package_error, dispose_engine a.engine a)

-- What a getter returns, if it is there.
abbrev pub present : Option ℕ → Action ℕ
present none a = (raised not_initialized, a)
present (some n) a = (ok n, a)

-- The properties `engine`, `session_factory`, `async_scoped_session`, `sync_engine` and
-- `sync_session_factory`.
unfoldable pub get : (Adapter → Option ℕ) → ConnectEnd → Action ℕ
unfolding ensure_initialized
get field end = do ensure_initialized end; (λ a. present (field a) a)

-- `create_session` of SessionFactory
unfoldable pub create_session : Option ℕ → ConnectEnd → Action ℕ
unfolding get
create_session (some session) end a = (ok session, a)
create_session none end a = get Adapter.session_factory end a

-- A use of the adapter.
pub data Use : Type 0 where
  initializing : ConnectEnd → Bool → Use
  getting : (Adapter → Option ℕ) → ConnectEnd → Use
  disposing : DisposeEnd → Use

unfoldable pub perform : Use → Adapter → Adapter
unfolding initialize get dispose
perform (initializing end answers) a = (initialize end answers a).1
perform (getting field end) a = (get field end a).1
perform (disposing end) a = (dispose end a).1

unfoldable pub perform_all : List Use → Adapter → Adapter
unfolding perform
perform_all [] a = a
perform_all (u ∷ us) a = perform_all us (perform u a)
