-- ===== src/Responses/Codes.antt =====
-- The error codes of backend/core/exceptions/error_codes.py.
use backend_prod_ready.Prelude.{Text, codes}

pub data ErrorCode : Type 0 where
  internal_server_error bad_request not_found conflict_error validation_error : ErrorCode
  method_not_allowed timeout rate_limit_exceeded service_unavailable bad_gateway : ErrorCode
  authentication_failed permission_denied unauthorized user_inactive user_not_found : ErrorCode
  jwt_token_error jwt_invalid_token jwt_expired_token jwt_missing_token token_expired : ErrorCode
  token_invalid refresh_token_missing refresh_token_invalid refresh_token_expired : ErrorCode
  oauth_error oauth_state_invalid oauth_provider_error role_not_found plan_not_found : ErrorCode
  plan_expired user_plan_not_found feature_not_available quota_exceeded database_error : ErrorCode
  database_connection_error database_timeout_error database_disconnection_error : ErrorCode
  database_interface_error database_operational_error database_dbapi_error : ErrorCode
  database_circuit_breaker_open : ErrorCode

-- `str(code)` of a member
unfoldable pub value : ErrorCode → Text
value internal_server_error = codes "INTERNAL_SERVER_ERROR"
value bad_request = codes "BAD_REQUEST"
value not_found = codes "NOT_FOUND"
value conflict_error = codes "CONFLICT_ERROR"
value validation_error = codes "VALIDATION_ERROR"
value method_not_allowed = codes "METHOD_NOT_ALLOWED"
value timeout = codes "TIMEOUT"
value rate_limit_exceeded = codes "RATE_LIMIT_EXCEEDED"
value service_unavailable = codes "SERVICE_UNAVAILABLE"
value bad_gateway = codes "BAD_GATEWAY"
value authentication_failed = codes "AUTHENTICATION_FAILED"
value permission_denied = codes "PERMISSION_DENIED"
value unauthorized = codes "UNAUTHORIZED"
value user_inactive = codes "USER_INACTIVE"
value user_not_found = codes "USER_NOT_FOUND"
value jwt_token_error = codes "JWT_TOKEN_ERROR"
value jwt_invalid_token = codes "JWT_INVALID_TOKEN"
value jwt_expired_token = codes "JWT_EXPIRED_TOKEN"
value jwt_missing_token = codes "JWT_MISSING_TOKEN"
value token_expired = codes "TOKEN_EXPIRED"
value token_invalid = codes "TOKEN_INVALID"
value refresh_token_missing = codes "REFRESH_TOKEN_MISSING"
value refresh_token_invalid = codes "REFRESH_TOKEN_INVALID"
value refresh_token_expired = codes "REFRESH_TOKEN_EXPIRED"
value oauth_error = codes "OAUTH_ERROR"
value oauth_state_invalid = codes "OAUTH_STATE_INVALID"
value oauth_provider_error = codes "OAUTH_PROVIDER_ERROR"
value role_not_found = codes "ROLE_NOT_FOUND"
value plan_not_found = codes "PLAN_NOT_FOUND"
value plan_expired = codes "PLAN_EXPIRED"
value user_plan_not_found = codes "USER_PLAN_NOT_FOUND"
value feature_not_available = codes "FEATURE_NOT_AVAILABLE"
value quota_exceeded = codes "QUOTA_EXCEEDED"
value database_error = codes "DATABASE_ERROR"
value database_connection_error = codes "DATABASE_CONNECTION_ERROR"
value database_timeout_error = codes "DATABASE_TIMEOUT_ERROR"
value database_disconnection_error = codes "DATABASE_DISCONNECTION_ERROR"
value database_interface_error = codes "DATABASE_INTERFACE_ERROR"
value database_operational_error = codes "DATABASE_OPERATIONAL_ERROR"
value database_dbapi_error = codes "DATABASE_DBAPI_ERROR"
value database_circuit_breaker_open = codes "DATABASE_CIRCUIT_BREAKER_OPEN"
