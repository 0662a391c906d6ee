-- ===== src/EmailOtp.antt =====
-- internal/application/services/email_otp_service.go and forgot_password_service.go. The ports are
-- parameters; `random` is the stream of `crypto/rand` at a state, `new_id` is `utils.GenerateID`
-- (google/uuid), `assets_url` the environment variable APP_ASSETS_URL. Log calls are left out.
pub mod Sent
pub mod Verification
use Prim.Native.String.{◌++◌}
use edu_learn_notification_s.Prelude.{ℕ, ◌/◌, Bool, true, false, String, List, [], ◌∷◌}
use edu_learn_notification_s.Errors.{
  DomainError, Err, Result, ok, err, domain, new, wrap, otp_not_found,
}
use edu_learn_notification_s.Effect.{Exec, pure, fail, lift, context, attempt, ignore, ◌>>=◌, ◌>>◌}
use edu_learn_notification_s.Otp
use edu_learn_notification_s.Otp.{Otp, new_otp, verify, second}
use edu_learn_notification_s.Notification.{Notification, blank, email_notification}
use edu_learn_notification_s.Events.{Event, OtpVerifiedEventPayload}
use edu_learn_notification_s.Ports.{OtpRepository, TemplateRenderer, EventPublisher, EmailSender}

-- buildOTPEmailBody with no expiry given: ten minutes
abbrev otp_fields : String → String → String → List (String × String)
otp_fields assets_url username code =
    ("USER_NAME", username)
    ∷ ("LOGO_URL", assets_url ++ "/logo.png")
    ∷ ("OTP_CODE", code)
    ∷ ("EXPIRY_TIME", "10 minutes")
    ∷ []

abbrev otp_mail : String → String → String → String → Notification
otp_mail id user_id email body = record blank {
  id = id;
  user_id = user_id;
  type = email_notification;
  subject = "Your OTP Code";
  body = body;
  recipient = email;
}

abbrev reset_mail : String → String → String → String → Notification
reset_mail id user_id email body = record blank {
  id = id;
  user_id = user_id;
  type = email_notification;
  subject = "Password Reset Request";
  body = body;
  recipient = email;
}

module _ {W : Type 0} (repo : OtpRepository W) (renderer : TemplateRenderer W)
    (broker : EventPublisher W) (sender : EmailSender W) (random : W → ℕ → Result ℕ)
    (new_id : Exec W String) (assets_url : String) where
  -- entity.NewOTP inside a service: the draws come from the state.
  make_otp : ℕ → String → String → Exec W Otp
  make_otp now user_id email w = (new_otp (random w) now user_id email, w)

  -- func (s *EmailOTPService) SendOTP
  unfoldable pub send_otp : ℕ → String → String → String → Exec W (Unit {0})
  unfolding make_otp
  send_otp now user_id email username = do
    otp ← context "failed to generate OTP" (make_otp now user_id email)
    context "failed to save OTP" (repo.save_otp now otp)
    body ←
        context "failed to render OTP template"
          (renderer.render "activation-mail.html" (otp_fields assets_url username otp.code))
    id ← new_id
    context "failed to send OTP email" (sender.send (otp_mail id user_id email body))

  -- func (s *EmailOTPService) publishOTPVerifiedEvent
  pub publish_verified : ℕ → String → String → Exec W (Unit {0})
  publish_verified now user_id email = do
    id ← new_id
    broker.publish_otp_verified (record {
      base = record {
        event_id = id;
        event_type = "OTPVerifiedEvent";
        timestamp = now / second;
        source = "notification-service";
        event_version = "";
        correlation_id = "";
      };
      payload = record { user_id = user_id; email = email; status = "verified" };
    })

  -- What VerifyOTP does with the outcome of `otp.Verify`: a failed attempt is stored back.
  pub settle : ℕ → String → Result (Unit {0}) × Otp → Exec W Bool
  unfolding publish_verified
  settle now email (err e, otp) = do ignore (repo.save_otp now otp); pure false
  settle now email (ok tt, otp) = do
    ignore (repo.delete_otp email)
    ignore (publish_verified now otp.user_id email)
    pure true

  -- A missing password is no error of the service.
  pub verify_found : ℕ → String → String → Result Otp → Exec W Bool
  unfolding settle
  verify_found now email code (err (domain otp_not_found)) = pure false
  verify_found now email code (err e) = fail e
  verify_found now email code (ok otp) = settle now email (verify code now otp)

  -- func (s *EmailOTPService) VerifyOTP
  unfoldable pub verify_otp : ℕ → String → String → Exec W Bool
  unfolding verify_found
  verify_otp now email code = do
    found ← attempt (repo.get_otp now email)
    verify_found now email code found

-- func (s *ForgotPasswordService) Send
unfoldable send_forgot_password :
    {W : Type 0} (renderer : TemplateRenderer W) (sender : EmailSender W) (new_id : Exec W String)
    → String
    → String
    → String
    → String
    → Exec W (Unit {0})
send_forgot_password renderer sender new_id user_id username email reset_link = do
  body ← context "failed to render forgot password email template" (
      renderer.render "forgot-mail.html"
        (("RESET_LINK", reset_link) ∷ ("USER_NAME", username) ∷ ("EXPIRY_TIME", "10 minutes") ∷ []))
  id ← new_id
  context "failed to send forgot password email" (sender.send (reset_mail id user_id email body))
