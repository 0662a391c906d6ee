-- ===== src/Events.antt =====
-- internal/domain/events: the events that come in and go out, and their validation. `net/mail`'s
-- `ParseAddress` is the parameter `is_address`: whether it parses a text.
pub mod Validity
use edu_learn_notification_s.Prelude.{
  ℕ, Bool, true, not, ◌&&◌, ◌||◌, eqb, String, List, [], ◌∷◌, all, ◌==◌, if◌then◌else◌,
}
use edu_learn_notification_s.Errors.{Result, ok, err, new}
use edu_learn_notification_s.Effect.{Exec}
use text.Mathlib.Text.{starts_with}

pub record BaseEvent : Type 0 where
  pub event_id : String
  pub event_type : String
  pub timestamp : ℕ
  pub source : String
  pub event_version : String
  pub correlation_id : String

pub record Event {ℓ} (T : Type ℓ) : Type ℓ where
  pub base : BaseEvent
  pub open base use *
  pub payload : T

pub record OtpRequestPayload : Type 0 where
  pub user_id : String
  pub email : String
  pub username : String
  pub phone_number : String
  pub otp_channel : String
  pub app_id : String
  pub request_source : String
  pub ip : String
  pub user_agent : String

-- `Expiry` is an int of which only `> 0` and its decimal text are used; a negative one is as 0 here.
pub record ForgotPasswordRequestPayload : Type 0 where
  pub user_id : String
  pub email : String
  pub username : String
  pub reset_link : String
  pub expiry : ℕ
  pub request_source : String
  pub ip : String
  pub user_agent : String

pub record InAppNotificationPayload : Type 0 where
  pub user_id : String
  pub title : String
  pub message : String
  pub type : String
  pub action_url : String
  pub icon : String
  pub priority : String
  pub app_id : String
  pub category : String

pub record EmailNotificationPayload : Type 0 where
  pub to : String
  pub cc : List String
  pub bcc : List String
  pub subject : String
  pub user_id : String
  pub body : String
  pub template : String
  pub attachments : List String
  pub priority : String

record PushNotificationPayload : Type 0 where
  pub user_id : String
  pub title : String
  pub message : String
  pub metadata : List (String × String)
  pub priority : String
  pub device_token : String
  pub platform : String

-- outbount_events.go
pub record OtpVerifiedEventPayload : Type 0 where
  pub user_id : String
  pub email : String
  pub status : String

pub record NotificationEventPayload : Type 0 where
  pub id : String
  pub user_id : String
  pub type : String
  pub subject : String
  pub body : String
  pub recipient : String
  pub timestamp : ℕ

-- func (p *InAppNotificationPayload) Validate() error
unfoldable pub validate_in_app : InAppNotificationPayload → Result (Unit {0})
validate_in_app p =
    if p.user_id == "" || p.title == "" || p.message == ""
    then err (new "userId, title, and message must not be empty")
    else ok tt

-- func (p *PushNotificationPayload) Validate() error
unfoldable validate_push : PushNotificationPayload → Result (Unit {0})
validate_push p =
    if p.user_id == ""
      || p.title == ""
      || p.message == ""
      || p.device_token == ""
      || p.platform == ""
    then err (new "userId, title, message, deviceToken, and platform must not be empty")
    else ok tt

module _ (is_address : String → Bool) where
  -- func (p *OTPRequestPayload) Validate() error
  unfoldable pub validate_otp_request : OtpRequestPayload → Result (Unit {0})
  validate_otp_request p =
      if p.user_id == "" || p.email == "" || p.username == ""
      then err (new "userId, username, and email must not be empty")
      else if not (is_address p.email)
      then err (new "invalid email format")
      else if p.otp_channel == ""
      then err (new "otpChannel is required")
      else ok tt

  -- func (p *ForgotPasswordRequestPayload) Validate() error
  pub validate_forgot_password : ForgotPasswordRequestPayload → Result (Unit {0})
  validate_forgot_password p =
      if p.user_id == "" || p.email == "" || p.reset_link == ""
      then err (new "userId, email, and resetLink must not be empty")
      else if not (is_address p.email)
      then err (new "invalid email format")
      else if eqb p.expiry 0
      then err (new "expiryMinutes must be positive")
      else if not (starts_with p.reset_link "http")
      then err (new "resetLink must be a valid URL")
      else ok tt

  -- The loops over CC and BCC: an empty entry is passed over, the first bad address is an error.
  pub check_copies : String → List String → Result (Unit {0})
  check_copies text [] = ok tt
  check_copies text (c ∷ cs) =
      let rest = check_copies text cs in
      if c == "" then rest else if is_address c then rest else err (new text)

  then_check : Result (Unit {0}) → Result (Unit {0}) → Result (Unit {0})
  then_check (ok tt) next = next
  then_check (err e) next = err e

  -- func (p *EmailNotificationPayload) Validate() error
  pub validate_email : EmailNotificationPayload → Result (Unit {0})
  unfolding then_check
  validate_email p =
      if p.to == "" || p.subject == "" || p.body == ""
      then err (new "to, subject, and body must not be empty")
      else if not (is_address p.to)
      then err (new "invalid 'to' email format")
      else then_check (check_copies "invalid 'cc' email format" p.cc)
          (check_copies "invalid 'bcc' email format" p.bcc)
