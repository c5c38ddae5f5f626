-- ===== src/Database/Errors/Mapping.antt =====
-- Which exception leaves a decorated database method.
use backend_prod_ready.Prelude.{Bool, List, arith, drop, false, if◌then◌else◌, true, ℕ, ◌||◌, ◌≡◌}
use backend_prod_ready.Database.Errors.{
  Exception, Handler, Raised, circuit_breaker_failed, connection_does_not_exist_error,
  connection_failure_error, dbapi_error, exception_handlers, first_handler, from_it, gaierror,
  handle_exception, http_exception, interface_error, itself, operational_error, os_error,
  postgres_connection_error, request_timeout_error, sqlalchemy_timeout_error, status_code,
}

-- The subclass relations that the source and its packages declare among the classes.
pub record HasHierarchy (is_instance : Exception) : Type 0 where
  -- `RequestTimeoutError(ServiceException)`, `ServiceException(HTTPException)`
  pub timeout_http : is_instance request_timeout_error ≡ true → is_instance http_exception ≡ true
  -- `OperationalError(DatabaseError)`, `DatabaseError(DBAPIError)`, `InterfaceError(DBAPIError)`
  pub operational_dbapi : is_instance operational_error ≡ true → is_instance dbapi_error ≡ true
  pub interface_dbapi : is_instance interface_error ≡ true → is_instance dbapi_error ≡ true

-- `exception_handlers` without its first entry.
abbrev pub later_handlers : List Handler
later_handlers = drop 1 exception_handlers

-- The entry for RequestTimeoutError is never reached: an exception of that class is an HTTPException
-- and has been raised again before, so the result is the same without the entry.
pub timeout_entry_dead :
    (e : Exception)
    → HasHierarchy e
    → handle_exception e ≡ (if e http_exception then itself else first_handler later_handlers e)
unfolding handle_exception
timeout_entry_dead e h = ground (arith, h.timeout_http)

-- The status of the exception that leaves the method.
abbrev pub status_of : Raised → ℕ
status_of itself = 0
status_of (from_it t) = status_code t

abbrev pub is_disconnection : Exception → Bool
is_disconnection e =
    e postgres_connection_error
    || e connection_failure_error
    || e connection_does_not_exist_error
    || e os_error
    || e gaierror

-- Under the declared subclass relations, the status of what an exception that is no HTTPException
-- becomes: 503 for a lost connection; else 408 for a timeout of SQLAlchemy; else 500 for any
-- other error of SQLAlchemy; else 503 for an open circuit breaker; else 500.
pub handled_status :
    (e : Exception)
    → HasHierarchy e
    → e http_exception ≡ false
    → status_of (handle_exception e) ≡ (
        if is_disconnection e
        then 503
        else if e sqlalchemy_timeout_error
        then 408
        else if e dbapi_error
        then 500
        else if e circuit_breaker_failed
        then 503
        else 500)
unfolding handle_exception status_code
handled_status e h not_http = ground (arith, h.timeout_http, h.operational_dbapi, h.interface_dbapi)
