-- ===== src/Tests/HandlerRuns.antt =====
-- The handlers: an in-app message and a request for a one-time password, each handled twice over an
-- empty shelf.
use edu_learn_notification_s.Prelude.{
  ℕ, ◌+◌, Bool, true, false, String, ◌≡◌, ◌≢◌, ◌⊎◌, refl, List, All, none, arith, eq_iff,
}
use edu_learn_notification_s.Errors.{Result, ok}
use edu_learn_notification_s.Effect.{Exec}
use edu_learn_notification_s.Notification.{Notification, blank, validate, is_valid_type}
use edu_learn_notification_s.Otp.{new_otp, generate_otp}
use edu_learn_notification_s.Events.{
  Event, BaseEvent, InAppNotificationPayload, OtpRequestPayload, validate_in_app,
  validate_otp_request,
}
use edu_learn_notification_s.Ports.{
  NotificationRepository, OtpRepository, EmailSender, TemplateRenderer, WsHubAdaptor,
}
use edu_learn_notification_s.NotificationStore.{notification_repository}
use edu_learn_notification_s.NotificationStore.Processed.{
  ProcessedLaws, Flagged, notification_repository-ProcessedLaws,
}
use edu_learn_notification_s.Handlers.{once, in_app_notification, handle_in_app, handle_otp_request}
use edu_learn_notification_s.Handlers.Display.{Clock, categories}
use edu_learn_notification_s.Handlers.Once.{
  IsSkipped, IsUnmarked, handle_in_app_once, handle_otp_request_once,
}
use edu_learn_notification_s.Tests.Shelf.{
  Shelf, db, notes, pages, flags, processed, flag, shelf-FlagLaws,
}

abbrev repo : NotificationRepository Shelf
repo = notification_repository db notes pages flags

abbrev Ready : ℕ → Shelf → Type 0
Ready = Flagged db notes pages flags processed flag shelf-FlagLaws

laws : ProcessedLaws repo processed Ready
laws = notification_repository-ProcessedLaws db notes pages flags processed flag shelf-FlagLaws

abbrev empty : Shelf
empty = record { kept = none; cached = λ k. none; seen = λ id. false }

always_ready : (now : ℕ) (s : Shelf) → Ready now s
always_ready now s n id b le h = absurd cc

abbrev same_text : String → String
same_text text = text

abbrev clock : Clock
clock = record { rfc3339 = λ t. ""; local = λ t. ""; to_lower = same_text; order = categories }

abbrev hub : WsHubAdaptor Shelf
hub = record { notify_in_app_message = λ m s. (ok tt, s) }

abbrev base : BaseEvent
base = record {
  event_id = "e1";
  event_type = "";
  timestamp = 0;
  source = "";
  event_version = "";
  correlation_id = "";
}

abbrev news : Event InAppNotificationPayload
news = record {
  base = base;
  payload = record {
    user_id = "ann";
    title = "New lesson";
    message = "Lesson 3 is out";
    type = "";
    action_url = "";
    icon = "";
    priority = "";
    app_id = "";
    category = "course";
  };
}

abbrev decode_news : String → Result (Event InAppNotificationPayload)
decode_news text = ok news

not_empty : ◌≢◌ {A = String} "e1" ""
not_empty = ground (arith, eq_iff "e1" "")

news_handled : (handle_in_app repo clock hub decode_news 7 "{}" empty).0 ≡ ok tt
unfolding handle_in_app once validate_in_app validate notification_repository in_app_notification
    is_valid_type
news_handled = refl

handle_in_app_once_example :
    IsSkipped repo processed Ready laws 8 "e1"
      (handle_in_app repo clock hub decode_news 8 "{}")
      (handle_in_app repo clock hub decode_news 7 "{}" empty).1
    ⊎ IsUnmarked repo processed Ready laws 7 "e1"
        (handle_in_app repo clock hub decode_news 7 "{}" empty).1
handle_in_app_once_example =
    handle_in_app_once repo processed Ready laws clock hub decode_news 7 8 "{}" news empty refl
      not_empty (always_ready 7 empty) news_handled
      (always_ready 8 (handle_in_app repo clock hub decode_news 7 "{}" empty).1)

abbrev request : Event OtpRequestPayload
request = record {
  base = base;
  payload = record {
    user_id = "u1";
    email = "ann@x.io";
    username = "ann";
    phone_number = "";
    otp_channel = "email";
    app_id = "";
    request_source = "";
    ip = "";
    user_agent = "";
  };
}

abbrev decode_request : String → Result (Event OtpRequestPayload)
decode_request text = ok request

abbrev sender : EmailSender Shelf
sender = record { send = λ n s. (ok tt, s) }

abbrev renderer : TemplateRenderer Shelf
renderer = record { render = λ name fields s. (ok "", s) }

abbrev otps : OtpRepository Shelf
otps = record {
  save_otp = λ now o s. (ok tt, s);
  get_otp = λ now email s.
      (ok (record { code = ""; email = ""; user_id = ""; expires_at = 0; attempts = 0 }), s);
  delete_otp = λ email s. (ok tt, s);
}

abbrev new_id : Exec Shelf String
new_id s = (ok "id", s)

abbrev is_address : String → Bool
is_address text = true

abbrev dice : Shelf → ℕ → Result ℕ
dice s k = ok (k + 3)

abbrev handle : ℕ → String → Exec Shelf (Unit {0})
handle = handle_otp_request repo is_address sender new_id renderer otps dice decode_request

request_handled : (handle 7 "{}" empty).0 ≡ ok tt
unfolding handle_otp_request once validate_otp_request notification_repository new_otp generate_otp
request_handled = refl

handle_otp_request_once_example :
    IsSkipped repo processed Ready laws 8 "e1" (handle 8 "{}") (handle 7 "{}" empty).1
    ⊎ IsUnmarked repo processed Ready laws 7 "e1" (handle 7 "{}" empty).1
handle_otp_request_once_example =
    handle_otp_request_once repo processed Ready laws is_address sender new_id renderer otps dice
      decode_request 7 8 "{}" request empty refl not_empty (always_ready 7 empty) request_handled
      (always_ready 8 (handle 7 "{}" empty).1)

abbrev lesson : Notification
lesson = record blank { subject = "a lesson" }

no_general : All (λ (entry : String × List String). entry.0 ≢ "general") categories
no_general = ground (
  arith,
  eq_iff "system" "general",
  eq_iff "account" "general",
  eq_iff "course" "general",
  eq_iff "social" "general",
  eq_iff "payment" "general",
)
