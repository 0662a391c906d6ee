-- ===== src/Tests/SendingRuns.antt =====
-- The notification service over the repository with an empty shelf, and an error of the service.
use edu_learn_notification_s.Prelude.{false, none, ◌⊎◌, String, ◌≡◌, ◌≢◌, arith, eq_iff}
use edu_learn_notification_s.Errors.{ok}
use edu_learn_notification_s.Effect.{Exec}
use edu_learn_notification_s.Notification.{Notification, InAppWsMessage, inapp_notification}
use edu_learn_notification_s.Ports.{EmailSender, WsHubAdaptor}
use edu_learn_notification_s.Handlers.Display.{Clock, categories, build_ws_message}
use edu_learn_notification_s.Sending.{dispatch, create_and_queue}
use edu_learn_notification_s.Sending.Twice.{wired, IsStored, create_and_queue-inapp_notification}
use edu_learn_notification_s.NotificationStore.{notification_repository}
use edu_learn_notification_s.Tests.Shelf.{Shelf, row, db, notes, pages, flags, shelf-CreateLaws}
use edu_learn_notification_s.ServiceErrors.{
  ServiceError, to_grpc_status, from_grpc_status, internal, bad_request_type, not_found_type,
  invalid_argument, validation_type,
}
use edu_learn_notification_s.ServiceErrors.RoundTrip.{to_grpc_status-from_grpc_status}

abbrev empty : Shelf
empty = record { kept = none; cached = λ k. none; seen = λ id. false }

abbrev hub : WsHubAdaptor Shelf
hub = record { notify_in_app_message = λ m w. (ok tt, w) }

abbrev sender : EmailSender Shelf
sender = record { send = λ n w. (ok tt, w) }

abbrev clock : Clock
clock = record { rfc3339 = λ t. ""; local = λ t. ""; to_lower = λ text. text; order = categories }

abbrev to_message : Notification → InAppWsMessage
to_message n = build_ws_message clock 7 n

abbrev new_id : Exec Shelf String
new_id w = (ok "id", w)

named : ◌≢◌ {A = String} "n1" ""
named = ground (arith, eq_iff "n1" "")

create_and_queue-inapp_notification_example :
    let call =
      create_and_queue 7 new_id
        (notification_repository db notes pages flags)
        (dispatch
          (wired (notification_repository db notes pages flags) hub sender to_message new_id 7))
        "n1"
        "ann"
        "ann"
        "Hi"
        "Hello"
        inapp_notification
        empty in
    (call.0.1 ≢ ok tt)
    × ((call.0.0 ≡ none)
        ⊎ IsStored db notes pages flags row shelf-CreateLaws hub sender to_message new_id "n1" "ann"
            "Hi" "Hello" call.1)
create_and_queue-inapp_notification_example =
    create_and_queue-inapp_notification db notes pages flags row shelf-CreateLaws hub sender
      to_message new_id 7 "n1" "ann" "ann" "Hi" "Hello" empty named

abbrev missing : ServiceError
missing = record {
  type = not_found_type;
  code = "RESOURCE_NOT_FOUND";
  message = "notification with id n1 not found";
  details = "";
  request_id = "";
}

to_grpc_status-from_grpc_status_example :
    let st = to_grpc_status missing in
    let back = from_grpc_status st in
    ((to_grpc_status back).code ≡ st.code)
    × ((to_grpc_status back).message ≡ st.message)
    × (st.code ≢ internal → back.message ≡ missing.message)
    × (st.code ≢ internal → missing.type ≢ bad_request_type → back.type ≡ missing.type)
    × (missing.type ≡ bad_request_type
        → (st.code ≡ invalid_argument)
          × (back.type ≡ validation_type)
          × (back.message ≡ missing.message))
    × (st.code ≡ internal → st.message ≡ "Internal server error")
to_grpc_status-from_grpc_status_example = to_grpc_status-from_grpc_status missing
