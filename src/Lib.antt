-- ===== src/Lib.antt =====
-- Verification of the backend: a FastAPI service with a Redis cache, a PostgreSQL database behind a unit
-- of work, and an admin area behind proxies. Paths are from the root of the repository.
--
-- The parts, and the files that model them:
-- - Cache/Memory: `InMemoryCache` of backend/core/infrastructure/cache/service.py, a dict with expiry
--   times and a size bound. Each method holds the object's lock, so it is a function from the object
--   and the clock to a result and the new object. Cache/Memory/Lookup and Capacity hold its laws.
-- - Cache/Service: `CacheService` of the same file: `_ensure_connected` and the backoff state;
--   Cache/Service/Methods has `_execute_redis_operation`, `get`, `set`, `setnx`, `delete`, `ping`,
--   `execute_lua_script` and `close`. The Redis client with its circuit breaker is the parameter
--   Cache/Redis. Cache/Service/Connection follows the connection over sequences of events. Cache/Scan
--   has `delete_pattern` and the commands of the client that loops over SCAN use; Cache/Json has
--   `get_json` and `set_json`, with orjson and a breaker around operations that raise as parameters.
-- - Cache/Store: the interface that the services above the cache use, with the laws they rely on;
--   Cache/Store/Fallback is about `CacheService` as such a cache with its fallback active, and
--   Cache/Store/Connected with a connection to a Redis server that keeps working.
-- - Idempotency: `IdempotencyService` of backend/core/infrastructure/idempotency/service.py over that
--   interface. Its methods run in the `Exec` monad of Exec.antt, state beside a result or an error.
--   SHA-256 and orjson are the parameter `Codec`; Keys has the cache keys, NonAtomic the
--   specification of the check, Protocol its answers, Completion what follows an earlier call, Traces
--   whole sequences of requests, Interleaved the check that is not atomic between its awaits.
--   Idempotency/Stuck has the counting and the cleaning of the markers that stay, over the Redis
--   client.
-- - Security/Proxy: backend/core/security/proxy_validation.py, with Python's `ipaddress` as a parameter;
--   Security/Allowlist: the IP allowlist of backend/core/infrastructure/admin/auth_backend.py;
--   Security/AdminSession: login, logout and authenticate of the same file over the session, with the
--   class that they extend as a parameter; Mfa follows a session over visits, Origin is about addresses;
--   Security/Timeout: backend/core/security/timeout.py and
--   backend/core/api/middleware/request_timeout.py over calls with a duration;
--   Security/Admission: backend/core/api/middleware/admission_control.py as a step relation;
--   Security/CircuitBreaker: the registry of backend/core/security/circuit_breaker.py and, in
--   Observable, the wrapper that reports to it.
-- - Pagination: the two paginated queries of backend/core/infrastructure/database/repositories/base.py
--   and the objects of backend/core/api/dtos/pagination.py. A statement is a parameter: its count and
--   its rows under LIMIT and OFFSET.
-- - Database/Errors: backend/core/infrastructure/database/error_handler.py with the status codes of
--   backend/core/exceptions/db_exceptions.py, Redaction being what reaches the log; Database/UnitOfWork:
--   backend/core/infrastructure/database/uow.py, which records the calls it makes on its session, while
--   how each call ends is a parameter; Block is a whole `async with` with the calls of its body;
--   Database/Repository: the methods of repositories/base.py over a session and statements of
--   SQLAlchemy, which are parameters, with Write for those that change entities and Upsert for INSERT …
--   ON CONFLICT; Database/Connection: connection.py and session.py, whose engines are numbered.
-- - Settings: the validators of `Settings` in backend/core/conf/settings.py.
-- - FeatureFlags: `FeatureFlagService` of backend/core/infrastructure/feature_flags.py over Cache/Store;
--   Meaning is about any such cache, Lifetime about the fallback over time.
-- - Responses: the exceptions of backend/core/exceptions/http_exceptions.py, jwt_exceptions.py and
--   db_exceptions.py (Codes, Classes, Service), of backend/core/domain/exceptions.py and
--   backend/features/ai_generation/exceptions (Domain), the handlers of handlers.py and
--   error_to_response.py (Handlers, Validation), rate_limiting.py (RateLimit) and their registration in
--   backend/features/main.py (Registered). Answers composes them: what a client sees of an exception.
--   Logged is the error handler of the services in backend/core/exceptions/error_handler.py.
-- - Features: backend/features/system, the health checks, and backend/features/ai_generation, the
--   service and its domain objects.
-- - App: backend/features/main.py: Middleware is the stack that it configures, with the layers of
--   backend/core/api/middleware and Starlette's stack as a parameter, Lifespan the start, the body and
--   the end of the application with tenacity as a parameter, Shutdown the closing of the infrastructure
--   in backend/core/infrastructure/container.py, Profiling backend/core/api/middleware/profiling.py.
-- - Domain: the base class of the domain objects in backend/core/domain/base_domain.py.
-- - Observability: Metrics is the middleware of backend/core/observability/metrics.py over a client of
--   Prometheus, which is a parameter, and Paths its labels for paths; LogFormat is the choice of the
--   handlers of the loggers in backend/core/observability/logging.py.
-- - Prelude, Dict and Exec are shared: tests on numbers, lists, text as code points, dicts with text keys,
--   results with state. Examples runs the theorems at concrete inputs.
--
-- Numbers are natural: times are whole seconds and a clock that does not run backwards. Recursion is on
-- lists, but for the loops over SCAN, which are on fuel: more than the rounds that an iteration has left
-- is enough. The digits of a number are printed on fuel too, one more than the number, which every round
-- divides by ten. Not modelled: logs, tracing and the other metrics, which no result depends on; interleavings
-- inside one method of `CacheService`; the transfer objects of backend/core/api/dtos; that an exception
-- shares its context with the caller's dict; the bulk inserts and the mapping to domain objects of the
-- repository; routing, migrations and the handler of text generation.
pub mod Prelude
pub mod Domain
pub mod Dict
pub mod Exec
pub mod Cache
pub mod Idempotency
pub mod Security
pub mod Pagination
pub mod Database
pub mod Settings
pub mod FeatureFlags
pub mod Responses
pub mod Features
pub mod App
pub mod Observability
pub mod Examples
