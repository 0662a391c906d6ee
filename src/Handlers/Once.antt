-- ===== src/Handlers/Once.antt =====
-- Each event is worked off once: what a handler does with a message that comes again.
use edu_learn_notification_s.Prelude.{
  ℕ, Bool, true, false, String, ◌≡◌, ◌≢◌, refl, ap, ◌∙◌, ◌==◌, arith, eq_iff, Bool-cases, inl, inr,
  ◌⊎◌,
}
use edu_learn_notification_s.Errors.{Err, Result, Result-cases, ok, err}
use edu_learn_notification_s.Effect.{Exec, lift, context, ◌>>◌}
use edu_learn_notification_s.Events.{
  Event, InAppNotificationPayload, OtpRequestPayload, validate_in_app, validate_otp_request,
}
use edu_learn_notification_s.Ports.{
  NotificationRepository, OtpRepository, EmailSender, TemplateRenderer, WsHubAdaptor,
}
use edu_learn_notification_s.NotificationStore.Processed.{ProcessedLaws}
use edu_learn_notification_s.Handlers.{
  once, unless_processed, handle_in_app, handle_otp_request, in_app_body, otp_body,
}
use edu_learn_notification_s.Handlers.Display.{Clock}

module _ {W : Type 0} (repo : NotificationRepository W) (processed : String → W → Bool)
    (Ready : ℕ → W → Type 0) (laws : ProcessedLaws repo processed Ready) where
  -- A repeated event is checked, and nothing else is done.
  abbrev pub IsSkipped : ℕ → String → Exec W (Unit {0}) → W → Type 0
  IsSkipped later id run w = run w ≡ (ok tt, (repo.check_if_processed later id w).1)

  nonempty : (id : String) → id ≢ "" → (id == "") ≡ false
  nonempty id ne = ground (arith, eq_iff id "")

  once-steps :
      (now : ℕ) (id : String) (body : Exec W (Unit {0})) (w : W)
      → id ≢ ""
      → Ready now w
      → once repo now id body w
        ≡ unless_processed repo now id body (processed id w) (repo.check_if_processed now id w).1
  unfolding once
  once-steps now id body w ne ready = rw (nonempty id ne) (rw (laws.check_runs now id w ready) refl)

  -- The last thing that a run did was to mark the event, and that failed.
  abbrev pub IsUnmarked : ℕ → String → W → Type 0
  IsUnmarked now id w =
      (before : W) × (e : Err) × ((repo.mark_as_processed now id before).0 ≡ err e)
      × (w ≡ (repo.mark_as_processed now id before).1)

  marked :
      (now : ℕ) (id : String) (body : Exec W (Unit {0})) (w : W)
      → (unless_processed repo now id body false w).0 ≡ ok tt
      → (processed id (unless_processed repo now id body false w).1 ≡ true)
        ⊎ IsUnmarked now id (unless_processed repo now id body false w).1
  unfolding unless_processed
  marked now id body w h = elim (Result-cases (body w).0) [
    | inr (x, e) ↦ absurd (ground arith)
    | inl (u, e) ↦ elim (Result-cases (repo.mark_as_processed now id (body w).1).0) [
      | inl (tt, good) ↦
          let done = laws.mark_ok now id (body w).1 id good in
          inl (rw e (ground (arith, done, eq_iff id id)))
      | inr (x, bad) ↦ inr ((body w).1, x, bad, rw e refl)
    ]
  ]

  once-processed :
      (now : ℕ) (id : String) (body : Exec W (Unit {0})) (w : W)
      → id ≢ ""
      → Ready now w
      → (once repo now id body w).0 ≡ ok tt
      → (processed id (once repo now id body w).1 ≡ true)
        ⊎ IsUnmarked now id (once repo now id body w).1
  unfolding unless_processed
  once-processed now id body w ne ready h =
      let steps = once-steps now id body w ne ready in
      let checked = (repo.check_if_processed now id w).1 in
      elim (Bool-cases (processed id w)) [
        | inl p ↦ inl (rw (steps, p) (laws.check_keeps now id w id ∙ p))
        | inr p ↦ rw (steps, p) (marked now id body checked (rw (steps, p) at h))
      ]

  skipped :
      (later : ℕ) (id : String) (body : Exec W (Unit {0})) (w : W)
      → id ≢ ""
      → Ready later w
      → processed id w ≡ true
      → IsSkipped later id (once repo later id body) w
  unfolding unless_processed
  skipped later id body w ne ready p =
      once-steps later id body w ne ready
      ∙ ap (λ b. unless_processed repo later id body b (repo.check_if_processed later id w).1) p

  -- What a handler that validates and then works an event off once does with it again.
  once-again :
      (now later : ℕ) (id : String) (body body' : Exec W (Unit {0})) (w : W)
      → id ≢ ""
      → Ready now w
      → (once repo now id body w).0 ≡ ok tt
      → Ready later (once repo now id body w).1
      → IsSkipped later id (once repo later id body') (once repo now id body w).1
        ⊎ IsUnmarked now id (once repo now id body w).1
  once-again now later id body body' w ne ready h again =
      elim (once-processed now id body w ne ready h) [
        | inl p ↦ inl (skipped later id body' (once repo now id body w).1 ne again p)
        | inr failed ↦ inr failed
      ]

  -- What a handler does with an event after the decoding.
  abbrev validated : Result (Unit {0}) → ℕ → String → Exec W (Unit {0}) → Exec W (Unit {0})
  validated v now id body = context "validation failed" (lift v) >> once repo now id body

  validated-again :
      (v : Result (Unit {0})) (now later : ℕ) (id : String) (body body' : Exec W (Unit {0})) (w : W)
      → id ≢ ""
      → Ready now w
      → (validated v now id body w).0 ≡ ok tt
      → Ready later (validated v now id body w).1
      → IsSkipped later id (validated v later id body') (validated v now id body w).1
        ⊎ IsUnmarked now id (validated v now id body w).1
  validated-again (ok tt) now later id body body' w ne ready h again =
      once-again now later id body body' w ne ready h again
  validated-again (err e) now later id body body' w ne ready h again = absurd (ground arith)

  module _ (clock : Clock) (hub : WsHubAdaptor W) {D : Type 0}
      (decode : D → Result (Event InAppNotificationPayload)) where
    in_app_steps :
        (now : ℕ) (message : D) (event : Event InAppNotificationPayload) (w : W)
        → decode message ≡ ok event
        → handle_in_app repo clock hub decode now message w
          ≡ validated
              (validate_in_app event.payload)
              now
              event.event_id
              (in_app_body repo clock hub now event)
              w
    unfolding handle_in_app
    in_app_steps now message event w d = rw d refl

    -- An in-app message that comes again, after a run that succeeded on an event with an identifier,
    -- stores and sends nothing: the run succeeds, and does no more than the check of the event. The
    -- one exception is a first run that ended with a MarkAsProcessed that failed.
    pub handle_in_app_once :
        (now later : ℕ) (message : D) (event : Event InAppNotificationPayload) (w : W)
        → decode message ≡ ok event
        → event.event_id ≢ ""
        → Ready now w
        → (handle_in_app repo clock hub decode now message w).0 ≡ ok tt
        → Ready later (handle_in_app repo clock hub decode now message w).1
        → IsSkipped later event.event_id
            (handle_in_app repo clock hub decode later message)
            (handle_in_app repo clock hub decode now message w).1
          ⊎ IsUnmarked now event.event_id (handle_in_app repo clock hub decode now message w).1
    handle_in_app_once now later message event w d ne ready h again =
        let w' = (handle_in_app repo clock hub decode now message w).1 in
        let first = in_app_steps now message event w d in
        elim (validated-again (validate_in_app event.payload) now later event.event_id
          (in_app_body repo clock hub now event) (in_app_body repo clock hub later event) w ne ready
          (rw first at h) (rw first at again)) [
            | inl same ↦ inl (in_app_steps later message event w' d ∙ rw first same)
            | inr failed ↦ inr (rw first failed)
          ]

  module _ (is_address : String → Bool) (sender : EmailSender W) (new_id : Exec W String)
      (renderer : TemplateRenderer W) (otps : OtpRepository W) (random : W → ℕ → Result ℕ)
      {D : Type 0} (decode : D → Result (Event OtpRequestPayload)) where
    abbrev handle : ℕ → D → Exec W (Unit {0})
    handle = handle_otp_request repo is_address sender new_id renderer otps random decode

    otp_steps :
        (now : ℕ) (message : D) (event : Event OtpRequestPayload) (w : W)
        → decode message ≡ ok event
        → handle now message w
          ≡ validated
              (validate_otp_request is_address event.payload)
              now
              event.event_id
              (otp_body repo is_address sender new_id renderer otps random now event.payload)
              w
    unfolding handle_otp_request
    otp_steps now message event w d = rw d refl

    -- A request for a one-time password that comes again, after a run that succeeded on an event with an
    -- identifier, makes no second password and sends no second mail: the run succeeds, and does no more
    -- than the check of the event. The one exception is a first run that ended with a MarkAsProcessed
    -- that failed.
    pub handle_otp_request_once :
        (now later : ℕ) (message : D) (event : Event OtpRequestPayload) (w : W)
        → decode message ≡ ok event
        → event.event_id ≢ ""
        → Ready now w
        → (handle now message w).0 ≡ ok tt
        → Ready later (handle now message w).1
        → IsSkipped later event.event_id (handle later message) (handle now message w).1
          ⊎ IsUnmarked now event.event_id (handle now message w).1
    handle_otp_request_once now later message event w d ne ready h again =
        let w' = (handle now message w).1 in
        let first = otp_steps now message event w d in
        let body = otp_body repo is_address sender new_id renderer otps random in
        elim (validated-again (validate_otp_request is_address event.payload) now later
          event.event_id (body now event.payload) (body later event.payload) w ne ready
          (rw first at h) (rw first at again)) [
            | inl same ↦ inl (otp_steps later message event w' d ∙ rw first same)
            | inr failed ↦ inr (rw first failed)
          ]
