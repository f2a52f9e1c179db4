-- ===== src/Error/Status.antt =====
-- src/error.rs: the HTTP status of an error.
use enigma_relay.Error.{
  EnigmaRelayError, ErrorResponse, into_response, invalid_input, rate_limited, duplicate,
  quota_exceeded, not_found, storage_error, config, tls, disabled, internal,
}

-- The statuses of actix_web::http that the relay names.
pub data StatusCode : Type 0 where
  bad_request too_many_requests success conflict missing service_unavailable : StatusCode
  internal_server_error : StatusCode

unfoldable pub status_code : EnigmaRelayError → StatusCode
status_code (invalid_input _) = bad_request
status_code rate_limited = too_many_requests
status_code duplicate = success
status_code quota_exceeded = conflict
status_code not_found = missing
status_code (storage_error _) = service_unavailable
status_code (config _) = bad_request
status_code (tls _) = internal_server_error
status_code (disabled _) = service_unavailable
status_code (internal _) = internal_server_error

-- The status and the body of the response.
unfoldable pub error_response :
    {Value : Type 0} → EnigmaRelayError → StatusCode × ErrorResponse Value
error_response e = (status_code e, into_response e)
