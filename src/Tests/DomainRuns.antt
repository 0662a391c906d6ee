-- ===== src/Tests/DomainRuns.antt =====
-- The entities and the events: codes from given draws, notifications and events with given texts.
use edu_learn_notification_s.Prelude.{
  ℕ, ◌+◌, Bool, String, ◌≡◌, ◌≢◌, refl, ◌↔◌, ◌⊎◌, List, [], ◌∷◌, Char, All, length, eqb,
  if◌then◌else◌, ◌==◌, ◌||◌,
}
use edu_learn_notification_s.Errors.{Result, ok, err, new}
use edu_learn_notification_s.Notification.{Notification, blank, validate}
use edu_learn_notification_s.Notification.Validity.{IsKnownType, validate_iff}
use edu_learn_notification_s.Events.{EmailNotificationPayload, ForgotPasswordRequestPayload}
use edu_learn_notification_s.Otp.{generate_otp, otp_length}
use edu_learn_notification_s.Otp.Code.{IsDigit, FirstFrom, generate_otp-IsDigit}

abbrev dice : ℕ → Result ℕ
dice k = ok (k + 3)

generate_otp-IsDigit_example :
    (cs : List Char) × (generate_otp dice ≡ ok cs)
    × (length cs ≡ otp_length)
    × All IsDigit cs
    × FirstFrom b'5' cs
generate_otp-IsDigit_example = generate_otp-IsDigit dice (λ k. k + 3) (λ k h. refl)

abbrev broken_dice : ℕ → Result ℕ
broken_dice k = if eqb k 2 then err (new "unexpected EOF") else ok k

abbrev welcome : Notification
welcome = record blank { user_id = "u1"; recipient = "ann@x.io"; type = "email"; subject = "Hi" }

validate_iff_example : (validate welcome ≡ ok tt) ↔ (
    (welcome.user_id ≢ "")
    × (welcome.recipient ≢ "")
    × IsKnownType welcome.type
    × ((welcome.subject ≢ "") ⊎ (welcome.body ≢ "")))
validate_iff_example = validate_iff welcome

-- A text with "ann@x.io" or "bob@x.io" is an address.
abbrev is_address : String → Bool
is_address text = text == "ann@x.io" || text == "bob@x.io"

abbrev letter : EmailNotificationPayload
letter = record {
  to = "ann@x.io";
  cc = "bob@x.io" ∷ [];
  bcc = [];
  subject = "Hi";
  user_id = "u1";
  body = "Hello";
  template = "";
  attachments = [];
  priority = "";
}

abbrev forgotten : ForgotPasswordRequestPayload
forgotten = record {
  user_id = "u1";
  email = "ann@x.io";
  username = "ann";
  reset_link = "https://x.io/reset";
  expiry = 15;
  request_source = "";
  ip = "";
  user_agent = "";
}
