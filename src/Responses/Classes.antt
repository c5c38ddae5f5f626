-- ===== src/Responses/Classes.antt =====
-- The classes of backend/core/exceptions/http_exceptions.py, jwt_exceptions.py and db_exceptions.py:
-- what each sets, over what it inherits.
use backend_prod_ready.Prelude.{Text, codes, ℕ}
use backend_prod_ready.Responses.Codes.{ErrorCode}

-- The attributes of a class.
pub record ServiceClass : Type 0 where
  pub status_code : ℕ
  pub message : Text
  pub code : ErrorCode

abbrev pub service_exception : ServiceClass
service_exception = record {
  status_code = 500;
  message = codes "Internal Server Error";
  code = ErrorCode.internal_server_error;
}

abbrev pub request_error : ServiceClass
request_error = record service_exception {
  status_code = 400;
  message = codes "Bad request";
  code = ErrorCode.bad_request;
}

abbrev pub authentication_failed_error : ServiceClass
authentication_failed_error = record service_exception {
  status_code = 401;
  message = codes "Authentication Failed.";
  code = ErrorCode.authentication_failed;
}

abbrev pub permission_denied_error : ServiceClass
permission_denied_error = record service_exception {
  status_code = 403;
  message = codes "You do not have permission to perform this action.";
  code = ErrorCode.permission_denied;
}

abbrev pub not_found_error : ServiceClass
not_found_error = record service_exception {
  status_code = 404;
  message = codes "Resource Not Found";
  code = ErrorCode.not_found;
}

abbrev pub method_not_allowed_error : ServiceClass
method_not_allowed_error = record service_exception {
  status_code = 405;
  message = codes "Method Not Allowed";
  code = ErrorCode.method_not_allowed;
}

abbrev pub request_timeout_error : ServiceClass
request_timeout_error = record service_exception {
  status_code = 408;
  message = codes "Request Timeout";
  code = ErrorCode.timeout;
}

abbrev pub conflict_error : ServiceClass
conflict_error = record service_exception {
  status_code = 409;
  message = codes "Conflict Error";
  code = ErrorCode.conflict_error;
}

abbrev pub validation_error : ServiceClass
validation_error = record service_exception {
  status_code = 422;
  message = codes "Validation Error";
  code = ErrorCode.validation_error;
}

abbrev pub rate_limit_exceeded_error : ServiceClass
rate_limit_exceeded_error = record service_exception {
  status_code = 429;
  message = codes "Rate limit exceeded";
  code = ErrorCode.rate_limit_exceeded;
}

abbrev pub internal_server_error : ServiceClass
internal_server_error = record service_exception {
  status_code = 500;
  message = codes "Internal Server Error";
  code = ErrorCode.internal_server_error;
}

abbrev pub bad_gateway_error : ServiceClass
bad_gateway_error = record service_exception {
  status_code = 502;
  message = codes "Bad Gateway";
  code = ErrorCode.bad_gateway;
}

abbrev pub service_unavailable_error : ServiceClass
service_unavailable_error = record service_exception {
  status_code = 503;
  message = codes "Service Unavailable";
  code = ErrorCode.service_unavailable;
}

abbrev pub jwt_token_error : ServiceClass
jwt_token_error = record authentication_failed_error {
  message = codes "Invalid JWT Token.";
  code = ErrorCode.jwt_token_error;
}

abbrev pub jwt_invalid_token_error : ServiceClass
jwt_invalid_token_error = record jwt_token_error {
  message = codes "Invalid JWT Token.";
  code = ErrorCode.jwt_invalid_token;
}

abbrev pub jwt_expired_signature_error : ServiceClass
jwt_expired_signature_error = record jwt_token_error {
  message = codes "Expired JWT Signature.";
  code = ErrorCode.jwt_expired_token;
}

abbrev pub jwt_missing_token_error : ServiceClass
jwt_missing_token_error = record jwt_token_error {
  message = codes "JWT Token is missing.";
  code = ErrorCode.jwt_missing_token;
}

abbrev pub database_error : ServiceClass
database_error = record internal_server_error {
  message = codes "Database error";
  code = ErrorCode.database_error;
}

abbrev pub database_connection_error : ServiceClass
database_connection_error = record internal_server_error {
  message = codes "Database connection error";
  code = ErrorCode.database_connection_error;
}

abbrev pub database_timeout_error : ServiceClass
database_timeout_error = record request_timeout_error {
  message = codes "Database timeout error";
  code = ErrorCode.database_timeout_error;
}

abbrev pub database_disconnection_error : ServiceClass
database_disconnection_error = record service_unavailable_error {
  message = codes "Database disconnection error";
  code = ErrorCode.database_disconnection_error;
}

abbrev pub database_interface_error : ServiceClass
database_interface_error = record internal_server_error {
  message = codes "Database interface error";
  code = ErrorCode.database_interface_error;
}

abbrev pub database_operational_error : ServiceClass
database_operational_error = record internal_server_error {
  message = codes "Database operational error";
  code = ErrorCode.database_operational_error;
}

abbrev pub database_dbapi_error : ServiceClass
database_dbapi_error = record internal_server_error {
  message = codes "Database DBAPI error";
  code = ErrorCode.database_dbapi_error;
}

abbrev pub database_circuit_breaker_open_error : ServiceClass
database_circuit_breaker_open_error = record service_unavailable_error {
  message = codes "Database circuit breaker is open - too many failures";
  code = ErrorCode.database_circuit_breaker_open;
}
