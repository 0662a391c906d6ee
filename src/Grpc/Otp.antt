-- ===== src/Grpc/Otp.antt =====
-- The handlers of the one-time passwords, over the service of email_otp_service.go.
use edu_learn_notification_s.Prelude.{ℕ, ◌<◌, Bool, true, false, String, ◌≡◌, refl, Option, some}
use edu_learn_notification_s.Errors.{Err, Result, ok, err}
use edu_learn_notification_s.Effect.{Exec}
use edu_learn_notification_s.Otp.{Otp, max_otp_attempts}
use edu_learn_notification_s.Ports.{OtpRepository, TemplateRenderer, EventPublisher, EmailSender}
use edu_learn_notification_s.OtpStore.Laws.{OtpRepositoryLaws}
use edu_learn_notification_s.EmailOtp.{send_otp, verify_otp}
use edu_learn_notification_s.EmailOtp.Verification.{verify_otp_sound}
use edu_learn_notification_s.Grpc.{
  Request, Response, success, error, ProtoError, EmailOtpService, serve_verify_otp, finish,
  verified, validated, verify_otp_request,
}

-- func NewEmailOTPService, at the time of a request
unfoldable pub email_otp_service :
    {W : Type 0} (repo : OtpRepository W) (renderer : TemplateRenderer W)
    (broker : EventPublisher W) (sender : EmailSender W) (random : W → ℕ → Result ℕ)
    (new_id : Exec W String) (assets_url : String)
    → ℕ
    → EmailOtpService W
email_otp_service repo renderer broker sender random new_id assets_url now = record {
  send_otp = send_otp repo renderer broker sender random new_id assets_url now;
  verify_otp = verify_otp repo renderer broker sender random new_id assets_url now;
}

module _ {W : Type 0} (text : Err → String) where
  finish-success :
      (message said : String) (r : Result Bool × W)
      → (finish {W = W} text message verified r).0 ≡ success said
      → r.0 ≡ ok true
  finish-success message said (ok true, w) h = refl
  finish-success message said (ok false, w) h = cc
  finish-success message said (err e, w) h = cc

  validated-success :
      {A : Type 0} (a : A) (v : Result (Unit {0})) (message : String) (next : W → Response A × W)
      (w : W)
      → (validated text v message next w).0 ≡ success a
      → (v ≡ ok tt) × ((next w).0 ≡ success a)
  validated-success a (ok tt) message next w h = (refl, h)
  validated-success a (err e) message next w h = cc

  validated_invalid :
      {A : Type 0} (v : Result (Unit {0})) (e : Err) (message : String) (next : W → Response A × W)
      (w : W)
      → v ≡ err e
      → (p : ProtoError) × (validated text v message next w ≡ (error p, w))
  validated_invalid (ok u) e message next w h = cc
  validated_invalid (err x) e message next w h = (_, refl)

  module _ (validate : Request → Result (Unit {0})) (otps : EmailOtpService W) where
    serve_verify_otp-success :
        (email otp said : String) (w : W)
        → (serve_verify_otp text validate otps email otp w).0 ≡ success said
        → (validate (verify_otp_request email otp) ≡ ok tt)
          × ((otps.verify_otp email otp w).0 ≡ ok true)
    unfolding serve_verify_otp
    serve_verify_otp-success email otp said w h =
        let (valid, done) =
          validated-success said (validate (verify_otp_request email otp)) "Invalid request data" _
            w h in
        (valid, finish-success "Failed to verify OTP" said (otps.verify_otp email otp w) done)

    serve_verify_otp_invalid :
        (email otp : String) (e : Err) (w : W)
        → validate (verify_otp_request email otp) ≡ err e
        → (p : ProtoError) × (serve_verify_otp text validate otps email otp w ≡ (error p, w))
    unfolding serve_verify_otp
    serve_verify_otp_invalid email otp e w h =
        validated_invalid (validate (verify_otp_request email otp)) e "Invalid request data" _ w h

module _ {W : Type 0} (repo : OtpRepository W) (stored : ℕ → String → W → Option Otp)
    (laws : OtpRepositoryLaws repo stored) (renderer : TemplateRenderer W)
    (broker : EventPublisher W) (sender : EmailSender W) (random : W → ℕ → Result ℕ)
    (new_id : Exec W String) (assets_url : String) (text : Err → String)
    (validate : Request → Result (Unit {0})) where
  -- A VerifyOTP call is answered by a success only if the request is valid, and only for the code that is
  -- stored for the address, before its expiry and with fewer attempts counted than the maximum. An
  -- invalid request is answered by an error, and nothing is done.
  pub serve_verify_otp_sound :
      (now : ℕ) (email otp : String) (w : W)
      → let otps = email_otp_service repo renderer broker sender random new_id assets_url now in
        let call = serve_verify_otp text validate otps email otp w in
        ((said : String)
          → call.0 ≡ success said
          → (validate (verify_otp_request email otp) ≡ ok tt)
            × (o : Otp) × (stored now email w ≡ some o)
            × (o.code ≡ otp)
            × (now < o.expires_at)
            × (o.attempts < max_otp_attempts))
        × ((e : Err)
            → validate (verify_otp_request email otp) ≡ err e
            → (p : ProtoError) × (call ≡ (error p, w)))
  unfolding email_otp_service
  serve_verify_otp_sound now email otp w = (
    λ said h.
        let (valid, done) = serve_verify_otp-success text validate _ email otp said w h in
        let (o, found, same, early, few) =
          verify_otp_sound repo stored laws renderer broker sender random new_id assets_url now
            email otp w done in
        (valid, o, found, same, early, few),
    λ e h. serve_verify_otp_invalid text validate _ email otp e w h,
  )
