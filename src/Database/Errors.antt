-- ===== src/Database/Errors.antt =====
-- backend/core/infrastructure/database/error_handler.py: how an exception of a database call leaves
-- the decorated method.
pub mod Mapping
pub mod Redaction
use backend_prod_ready.Prelude.{
  Bool, List, Text, [], any, codes, if◌then◌else◌, is_empty, leb, map, starts_with, true, ℕ, ◌&&◌,
  ◌+◌, ◌∷◌, lower,
}

-- The classes that the handlers test for.
pub data Class : Type 0 where
  http_exception request_timeout_error : Class
  postgres_connection_error connection_failure_error connection_does_not_exist_error : Class
  os_error gaierror : Class
  sqlalchemy_timeout_error operational_error interface_error dbapi_error : Class
  circuit_breaker_failed : Class

-- The exceptions of backend/core/exceptions/db_exceptions.py and http_exceptions.py that are raised.
pub data Target : Type 0 where
  request_timeout disconnection timeout operational interface dbapi circuit_breaker_open : Target
  database : Target

-- Their `status_code`, as their base classes give it.
unfoldable pub status_code : Target → ℕ
status_code request_timeout = 408
status_code disconnection = 503
status_code timeout = 408
status_code operational = 500
status_code interface = 500
status_code dbapi = 500
status_code circuit_breaker_open = 503
status_code database = 500

-- What leaves the method: the exception itself, or a new one of a class.
pub data Raised : Type 0 where
  itself : Raised
  from_it : Target → Raised

-- An entry of `_EXCEPTION_HANDLERS`: the classes, and what is raised. The log message and the choice
-- of what is logged are left out.
pub record Handler : Type 0 where
  pub exc_types : List Class
  pub target_exc : Target

-- `_EXCEPTION_HANDLERS`
abbrev pub exception_handlers : List Handler
exception_handlers =
    record { exc_types = request_timeout_error ∷ []; target_exc = request_timeout }
    ∷ record {
      exc_types =
          postgres_connection_error ∷ connection_failure_error ∷ connection_does_not_exist_error
          ∷ os_error ∷ gaierror ∷ [];
      target_exc = disconnection;
    }
    ∷ record { exc_types = sqlalchemy_timeout_error ∷ []; target_exc = timeout }
    ∷ record { exc_types = operational_error ∷ []; target_exc = operational }
    ∷ record { exc_types = interface_error ∷ []; target_exc = interface }
    ∷ record { exc_types = dbapi_error ∷ []; target_exc = dbapi }
    ∷ record { exc_types = circuit_breaker_failed ∷ []; target_exc = circuit_breaker_open }
    ∷ []

-- An exception is known by the classes that it is an instance of.
abbrev pub Exception : Type 0
Exception = Class → Bool

-- The loop of `_handle_exception` over the handlers, with its fallback.
unfoldable pub first_handler : List Handler → Exception → Raised
first_handler [] is_instance = from_it database
first_handler (h ∷ hs) is_instance =
    let rest = first_handler hs is_instance in
    if any is_instance h.exc_types then from_it h.target_exc else rest

-- `_handle_exception`
unfoldable pub handle_exception : Exception → Raised
unfolding first_handler
handle_exception is_instance =
    if is_instance http_exception then itself else first_handler exception_handlers is_instance
