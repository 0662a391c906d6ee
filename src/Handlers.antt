-- ===== src/Handlers.antt =====
-- internal/application/events: the handlers of the Kafka messages. `json.Unmarshal` at the type of an
-- event is the parameter `decode`, a message a value of `D`. The repositories are never nil in the
-- wiring, internal/bootstrap/di.go, and are taken as given. Log calls are left out.
pub mod Display
pub mod Once
pub mod Categories
use edu_learn_notification_s.Prelude.{
  ℕ, Bool, ◌||◌, String, List, [], ◌∷◌, Option, none, some, ◌==◌, decimal, if◌then◌else◌,
}
use Prim.Native.String.{◌++◌}
use edu_learn_notification_s.Errors.{Result, ok, err, new, with_context}
use edu_learn_notification_s.Effect.{Exec, pure, fail, lift, context, ignore, ◌>>=◌, ◌>>◌}
use edu_learn_notification_s.Otp.{Otp, new_otp}
use edu_learn_notification_s.Notification.{
  Notification, blank, inapp_notification, email_notification, map_to_category,
}
use edu_learn_notification_s.Events.{
  Event, InAppNotificationPayload, EmailNotificationPayload, OtpRequestPayload,
  ForgotPasswordRequestPayload, validate_in_app, validate_email, validate_otp_request,
  validate_forgot_password,
}
use edu_learn_notification_s.Ports.{
  NotificationRepository, OtpRepository, EmailSender, TemplateRenderer, WsHubAdaptor,
}
use Display.{Clock, build_ws_message}

-- The notification that the in-app handler makes of an event.
unfoldable pub in_app_notification : ℕ → Event InAppNotificationPayload → Notification
in_app_notification now event =
    let payload = event.payload in
    record blank {
      id = event.event_id;
      user_id = payload.user_id;
      type = inapp_notification;
      subject = payload.title;
      body = payload.message;
      recipient = payload.user_id;
      created_at = now;
      priority = payload.priority;
      action_url = payload.action_url;
      category = map_to_category payload.category;
    }

-- func buildEmailNotificationFromEvent, with the identifier that it draws
unfoldable build_email_notification : String → EmailNotificationPayload → Option Notification
build_email_notification id payload =
    if payload.to == "" || payload.subject == "" || payload.body == ""
    then none
    else some (record blank {
      id = id;
      user_id = payload.user_id;
      type = email_notification;
      subject = payload.subject;
      body = payload.body;
      recipient = payload.to;
      priority = payload.priority;
    })

module _ {W : Type 0} (repo : NotificationRepository W) where
  unless_processed : ℕ → String → Exec W (Unit {0}) → Bool → Exec W (Unit {0})
  unless_processed now event_id body Bool.true = pure tt
  unless_processed now event_id body Bool.false = do
    body
    ignore (repo.mark_as_processed now event_id)

  -- The part that the four handlers share: an event with an identifier that was processed is skipped,
  -- and one that the handler has worked off is marked.
  unfoldable pub once : ℕ → String → Exec W (Unit {0}) → Exec W (Unit {0})
  unfolding unless_processed
  once now event_id body = if event_id == "" then body else (do
    processed ← context "idempotency check failed" (repo.check_if_processed now event_id)
    unless_processed now event_id body processed)

  module _ (clock : Clock) (hub : WsHubAdaptor W) where
    in_app_body : ℕ → Event InAppNotificationPayload → Exec W (Unit {0})
    in_app_body now event = do
      saved ←
          context "failed to save notification"
            (repo.save_notification now (in_app_notification now event))
      ignore (hub.notify_in_app_message (build_ws_message clock now saved))

    -- func (h *InAppNotificationChannelHandler) Handle
    unfoldable pub handle_in_app :
        {D : Type 0} (decode : D → Result (Event InAppNotificationPayload))
        → ℕ
        → D
        → Exec W (Unit {0})
    unfolding in_app_body
    handle_in_app decode now message = do
      event ← lift (with_context "invalid InAppNotificationEvent JSON" (decode message))
      context "validation failed" (lift (validate_in_app event.payload))
      once now event.event_id (in_app_body now event)

  module _ (is_address : String → Bool) (sender : EmailSender W) (new_id : Exec W String)
      (renderer : TemplateRenderer W) where
    send_built : Option Notification → Exec W (Unit {0})
    send_built none = fail (new "failed to build email notification from event")
    send_built (some n) = context "failed to send email notification" (sender.send n)

    email_body : Event EmailNotificationPayload → Exec W (Unit {0})
    unfolding send_built
    email_body event = do id ← new_id; send_built (build_email_notification id event.payload)

    -- func (h *HandleEmailNotificationChannel) Handle
    handle_email :
        {D : Type 0} (decode : D → Result (Event EmailNotificationPayload))
        → ℕ
        → D
        → Exec W (Unit {0})
    unfolding email_body
    handle_email decode now message = do
      event ← lift (with_context "invalid email notification event json" (decode message))
      context "validation failed" (lift (validate_email is_address event.payload))
      once now event.event_id (email_body event)

    module _ (otps : OtpRepository W) (random : W → ℕ → Result ℕ) where
      draw_otp : ℕ → String → String → Exec W Otp
      draw_otp now user_id email w = (new_otp (random w) now user_id email, w)

      otp_body : ℕ → OtpRequestPayload → Exec W (Unit {0})
      unfolding draw_otp
      otp_body now payload = do
        otp ← context "failed to generate OTP" (draw_otp now payload.user_id payload.email)
        context "failed to save OTP" (otps.save_otp now otp)
        body ← context "failed to render OTP template" (
            renderer.render "activation-mail.html" (
              ("USER_NAME", payload.username)
              ∷ ("OTP_CODE", otp.code)
              ∷ ("EXPIRY_TIME", "10 minutes")
              ∷ []))
        id ← new_id
        context "failed to send OTP email" (
            sender.send (record blank {
              id = id;
              user_id = payload.user_id;
              type = email_notification;
              subject = "Your OTP Code";
              body = body;
              recipient = payload.email;
            }))

      -- func (s *OTPRequestEventHandler) Handle
      unfoldable pub handle_otp_request :
          {D : Type 0} (decode : D → Result (Event OtpRequestPayload)) → ℕ → D → Exec W (Unit {0})
      unfolding otp_body
      handle_otp_request decode now message = do
        event ← lift (with_context "invalid otp-request event json" (decode message))
        context "validation failed" (lift (validate_otp_request is_address event.payload))
        once now event.event_id (otp_body now event.payload)

    reset_body : Event ForgotPasswordRequestPayload → Exec W (Unit {0})
    reset_body event = do
      let payload = event.payload
      body ← context "failed to render forgot password email template" (
          renderer.render "forgot-mail.html" (
            ("RESET_LINK", payload.reset_link)
            ∷ ("USER_NAME", payload.username)
            ∷ ("EXPIRY_TIME", decimal payload.expiry ++ " minutes")
            ∷ []))
      context "failed to send forgot password email" (
          sender.send (record blank {
            id = event.event_id;
            user_id = payload.user_id;
            type = email_notification;
            subject = "Password Reset Request";
            body = body;
            recipient = payload.email;
          }))

    -- func (s *ForgotPasswordEventHandler) Handle
    handle_forgot_password :
        {D : Type 0} (decode : D → Result (Event ForgotPasswordRequestPayload))
        → ℕ
        → D
        → Exec W (Unit {0})
    unfolding reset_body
    handle_forgot_password decode now message = do
      event ← lift (with_context "invalid forgot-password-request event json" (decode message))
      context "validation failed" (lift (validate_forgot_password is_address event.payload))
      once now event.event_id (reset_body event)
