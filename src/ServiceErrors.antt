-- ===== src/ServiceErrors.antt =====
-- internal/infrastructure/errors/errors.go: the errors of the service and their gRPC statuses. A
-- `codes.Code` of google.golang.org/grpc is named by a constructor; the details that a status carries
-- as a message are a record. `ErrorType` is a string in the source, so any text is a value of it.
pub mod RoundTrip
use edu_learn_notification_s.Prelude.{Bool, List, [], ◌∷◌, Option, none, some, ◌==◌, if◌then◌else◌}
use Prim.Native.String.{String, ◌++◌}

abbrev pub ErrorType : Type 0
ErrorType = String

-- The constants of the source.
abbrev pub validation_type : ErrorType
validation_type = "VALIDATION_ERROR"

abbrev pub not_found_type : ErrorType
not_found_type = "NOT_FOUND"

abbrev pub unauthorized_type : ErrorType
unauthorized_type = "UNAUTHORIZED"

abbrev pub forbidden_type : ErrorType
forbidden_type = "FORBIDDEN"

abbrev pub internal_type : ErrorType
internal_type = "INTERNAL_ERROR"

abbrev pub bad_request_type : ErrorType
bad_request_type = "BAD_REQUEST"

abbrev pub conflict_type : ErrorType
conflict_type = "CONFLICT"

abbrev pub timeout_type : ErrorType
timeout_type = "TIMEOUT"

abbrev pub unavailable_type : ErrorType
unavailable_type = "UNAVAILABLE"

abbrev pub rate_limited_type : ErrorType
rate_limited_type = "RATE_LIMITED"

-- The field `Err`, which the conversions do not read, is left out.
pub record ServiceError : Type 0 where
  pub type : ErrorType
  pub code : String
  pub message : String
  pub details : String
  pub request_id : String

pub data GrpcCode : Type 0 where
  invalid_argument not_found unauthenticated permission_denied already_exists : GrpcCode
  deadline_exceeded unavailable resource_exhausted internal : GrpcCode
  -- The codes that the source does not name.
  other_code : GrpcCode

pub record ErrorDetails : Type 0 where
  pub type : String
  pub code : String
  pub details : String
  pub request_id : String

pub record Status : Type 0 where
  pub code : GrpcCode
  pub message : String
  pub details : Option ErrorDetails

-- The switch of ToGRPCStatus.
pub grpc_code : ErrorType → GrpcCode
grpc_code t =
    if t == validation_type
    then invalid_argument
    else if t == not_found_type
    then not_found
    else if t == unauthorized_type
    then unauthenticated
    else if t == forbidden_type
    then permission_denied
    else if t == bad_request_type
    then invalid_argument
    else if t == conflict_type
    then already_exists
    else if t == timeout_type
    then deadline_exceeded
    else if t == unavailable_type
    then unavailable
    else if t == rate_limited_type
    then resource_exhausted
    else internal

pub grpc_message : GrpcCode → String → String
grpc_message internal message = "Internal server error"
grpc_message code message = message

error_details : ServiceError → Option ErrorDetails
error_details e =
    if e.details == ""
    then none
    else some
        (record { type = e.type; code = e.code; details = e.details; request_id = e.request_id })

-- func ToGRPCStatus(err *ServiceError) *status.Status
pub to_grpc_status : ServiceError → Status
unfolding grpc_message error_details
to_grpc_status e = record {
  code = grpc_code e.type;
  message = grpc_message (grpc_code e.type) e.message;
  details = error_details e;
}

-- The switch of fromGRPCStatus: the type and the code of the error.
pub type_of_code : GrpcCode → ErrorType × String
type_of_code invalid_argument = (validation_type, "VALIDATION_FAILED")
type_of_code not_found = (not_found_type, "RESOURCE_NOT_FOUND")
type_of_code unauthenticated = (unauthorized_type, "UNAUTHORIZED")
type_of_code permission_denied = (forbidden_type, "FORBIDDEN")
type_of_code already_exists = (conflict_type, "CONFLICT")
type_of_code deadline_exceeded = (timeout_type, "TIMEOUT")
type_of_code unavailable = (unavailable_type, "SERVICE_UNAVAILABLE")
type_of_code resource_exhausted = (rate_limited_type, "RATE_LIMITED")
type_of_code internal = (internal_type, "INTERNAL_ERROR")
type_of_code other_code = (internal_type, "INTERNAL_ERROR")

-- func fromGRPCStatus(st *status.Status) *ServiceError
pub from_grpc_status : Status → ServiceError
unfolding type_of_code
from_grpc_status st =
    let (t, c) = type_of_code st.code in
    record { type = t; code = c; message = st.message; details = ""; request_id = "" }

-- An error of Go as FromError tells it: one of the service, one with a gRPC status, or another.
pub data GoError : Type 0 where
  service : ServiceError → GoError
  with_status : Status → GoError
  other : String → GoError

-- A composite literal that leaves the other fields empty.
abbrev pub service_error : ErrorType → String → String → String → ServiceError
service_error type code message details = record {
  type = type;
  code = code;
  message = message;
  details = details;
  request_id = "";
}

-- The constructors of the errors.
unfoldable new_validation_error : String → String → ServiceError
new_validation_error message details =
    service_error validation_type "VALIDATION_FAILED" message details

unfoldable new_not_found_error : String → String → ServiceError
new_not_found_error resource id =
    service_error not_found_type "RESOURCE_NOT_FOUND"
      (((resource ++ " with id ") ++ id) ++ " not found")
      ((("Resource: " ++ resource) ++ ", ID: ") ++ id)

unfoldable new_unauthorized_error : String → ServiceError
new_unauthorized_error message = service_error unauthorized_type "UNAUTHORIZED" message ""

unfoldable new_forbidden_error : String → ServiceError
new_forbidden_error message = service_error forbidden_type "FORBIDDEN" message ""

unfoldable pub new_internal_error : String → ServiceError
new_internal_error message = service_error internal_type "INTERNAL_ERROR" message ""

unfoldable new_bad_request_error : String → String → ServiceError
new_bad_request_error message details = service_error bad_request_type "BAD_REQUEST" message details

unfoldable new_conflict_error : String → String → ServiceError
new_conflict_error message details = service_error conflict_type "CONFLICT" message details

unfoldable new_timeout_error : String → ServiceError
new_timeout_error message = service_error timeout_type "TIMEOUT" message ""

unfoldable new_unavailable_error : String → ServiceError
new_unavailable_error message = service_error unavailable_type "SERVICE_UNAVAILABLE" message ""

unfoldable new_rate_limited_error : String → ServiceError
new_rate_limited_error message = service_error rate_limited_type "RATE_LIMITED" message ""

-- func FromError(err error) *ServiceError, of an error that is not nil
unfoldable pub from_error : GoError → ServiceError
unfolding from_grpc_status
from_error (service e) = e
from_error (with_status st) = from_grpc_status st
from_error (other text) = new_internal_error "An unexpected error occurred"

-- func NewValidationErrorFromValidator(err error) *ServiceError, of the text of an error that is not
-- nil; `mentions` is strings.Contains.
unfoldable new_validation_error_from_validator : (String → String → Bool) → String → ServiceError
new_validation_error_from_validator mentions details =
    new_validation_error
      (if mentions details "validation failed"
        then "One or more fields failed validation"
        else "Validation failed")
      details

-- The fields that LogError adds, before those of the call.
unfoldable error_fields : GoError → List (String × String)
unfolding from_error
error_fields err =
    let e = from_error err in
    let request = if e.request_id == "" then [] else ("request_id", e.request_id) ∷ [] in
    let more = if e.details == "" then request else ("error_details", e.details) ∷ request in
    ("error_type", e.type) ∷ ("error_code", e.code) ∷ ("error_message", e.message) ∷ more
