-- ===== src/ServiceErrors/RoundTrip.antt =====
-- What an error keeps on the way through a gRPC status.
use edu_learn_notification_s.Prelude.{String, ◌≡◌, ◌≢◌, refl, arith, eq_iff}
use edu_learn_notification_s.ServiceErrors.{
  ErrorType, ServiceError, GrpcCode, invalid_argument, not_found, unauthenticated,
  permission_denied, already_exists, deadline_exceeded, unavailable, resource_exhausted, internal,
  other_code, validation_type, not_found_type, unauthorized_type, forbidden_type, bad_request_type,
  conflict_type, timeout_type, unavailable_type, rate_limited_type, grpc_code, grpc_message,
  type_of_code, to_grpc_status, from_grpc_status,
}

-- A code that the source names is read back to a type that has it.
grpc_code-type_of_code : (c : GrpcCode) → c ≢ other_code → grpc_code (type_of_code c).0 ≡ c
unfolding grpc_code type_of_code
grpc_code-type_of_code invalid_argument ne = refl
grpc_code-type_of_code not_found ne = refl
grpc_code-type_of_code unauthenticated ne = refl
grpc_code-type_of_code permission_denied ne = refl
grpc_code-type_of_code already_exists ne = refl
grpc_code-type_of_code deadline_exceeded ne = refl
grpc_code-type_of_code unavailable ne = refl
grpc_code-type_of_code resource_exhausted ne = refl
grpc_code-type_of_code internal ne = refl
grpc_code-type_of_code other_code ne = absurd (ne refl)

grpc_code_named : (t : ErrorType) → grpc_code t ≢ other_code
unfolding grpc_code
grpc_code_named t = ground arith

-- A type that is not internal, and not a bad request, is read back from its code.
type_of_code-grpc_code :
    (t : ErrorType)
    → grpc_code t ≢ internal
    → t ≢ bad_request_type
    → (type_of_code (grpc_code t)).0 ≡ t
unfolding grpc_code type_of_code
type_of_code-grpc_code t n b = ground (
  arith,
  eq_iff t validation_type,
  eq_iff t not_found_type,
  eq_iff t unauthorized_type,
  eq_iff t forbidden_type,
  eq_iff t bad_request_type,
  eq_iff t conflict_type,
  eq_iff t timeout_type,
  eq_iff t unavailable_type,
  eq_iff t rate_limited_type,
)

grpc_message_again :
    (c d : GrpcCode) (m : String) → d ≡ c → grpc_message d (grpc_message c m) ≡ grpc_message c m
unfolding grpc_message
grpc_message_again c d m e = ground arith

-- The code of a bad request, the type that it is read back to, and its message.
sent_bad_request :
    (m : String)
    → (grpc_code bad_request_type ≡ invalid_argument)
      × ((type_of_code (grpc_code bad_request_type)).0 ≡ validation_type)
      × (grpc_message (grpc_code bad_request_type) m ≡ m)
unfolding grpc_code type_of_code grpc_message
sent_bad_request m = (refl, refl, refl)

-- An error that is sent as a status, read back and sent again makes the same status, but for its details.
-- If the code is not Internal, the error that is read back has the message, and the type too, save that a
-- bad request, which is sent as InvalidArgument, is read back as a validation error. An Internal status
-- has a fixed message in place of the error's.
pub to_grpc_status-from_grpc_status :
    (e : ServiceError)
    → let st = to_grpc_status e in
      let back = from_grpc_status st in
      ((to_grpc_status back).code ≡ st.code)
      × ((to_grpc_status back).message ≡ st.message)
      × (st.code ≢ internal → back.message ≡ e.message)
      × (st.code ≢ internal → e.type ≢ bad_request_type → back.type ≡ e.type)
      × (e.type ≡ bad_request_type
          → (st.code ≡ invalid_argument)
            × (back.type ≡ validation_type)
            × (back.message ≡ e.message))
      × (st.code ≡ internal → st.message ≡ "Internal server error")
unfolding to_grpc_status from_grpc_status
to_grpc_status-from_grpc_status e =
    let stable = grpc_code-type_of_code (grpc_code e.type) (grpc_code_named e.type) in
    (
      stable,
      grpc_message_again (grpc_code e.type) _ e.message stable,
      λ n. unfold grpc_message in ground arith,
      λ n b. type_of_code-grpc_code e.type n b,
      λ b. rw b (sent_bad_request e.message),
      λ i. unfold grpc_message in rw i refl,
    )
