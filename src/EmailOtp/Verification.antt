-- ===== src/EmailOtp/Verification.antt =====
-- What a verification of a one-time password promises.
use edu_learn_notification_s.Prelude.{
  ℕ, ◌<◌, Bool, true, false, String, ◌≡◌, ◌≢◌, refl, Option, none, some, List, [], ◌∷◌, All, arith,
  eq_iff, eq_refl,
}
use edu_learn_notification_s.Errors.{Result, ok, err, domain, otp_not_found}
use edu_learn_notification_s.Effect.{Exec}
use edu_learn_notification_s.Otp.{Otp, verify, max_otp_attempts}
use edu_learn_notification_s.Ports.{OtpRepository, TemplateRenderer, EventPublisher, EmailSender}
use edu_learn_notification_s.OtpStore.Laws.{OtpRepositoryLaws}
use edu_learn_notification_s.EmailOtp.{verify_otp, verify_found, settle, publish_verified}
use edu_learn_notification_s.Events.{Event, OtpVerifiedEventPayload}

module _ {W : Type 0} (repo : OtpRepository W) (stored : ℕ → String → W → Option Otp)
    (laws : OtpRepositoryLaws repo stored) (renderer : TemplateRenderer W)
    (broker : EventPublisher W) (sender : EmailSender W) (random : W → ℕ → Result ℕ)
    (new_id : Exec W String) (assets_url : String) where
  abbrev check : ℕ → String → String → Exec W Bool
  check = verify_otp repo renderer broker sender random new_id assets_url

  abbrev found : ℕ → String → String → Result Otp → Exec W Bool
  found = verify_found repo renderer broker sender random new_id assets_url

  found-true :
      (now : ℕ) (email code : String) (r : Result Otp) (w : W)
      → (found now email code r w).0 ≡ ok true
      → (o : Otp) × (r ≡ ok o)
        × (o.code ≡ code)
        × (now < o.expires_at)
        × (o.attempts < max_otp_attempts)
  unfolding verify_found verify
  found-true now email code (err (domain otp_not_found)) w h = cc
  found-true now email code (err e) w h = cc
  found-true now email code (ok o) w h =
      (o, refl, ground (arith, eq_iff o.code code), ground arith, ground arith)

  -- A verification succeeds only with the code that is stored for the address, before its expiry, and
  -- with fewer attempts counted than the maximum.
  pub verify_otp_sound :
      (now : ℕ) (email code : String) (w : W)
      → (check now email code w).0 ≡ ok true
      → (o : Otp) × (stored now email w ≡ some o)
        × (o.code ≡ code)
        × (now < o.expires_at)
        × (o.attempts < max_otp_attempts)
  unfolding verify_otp
  verify_otp_sound now email code w h =
      let (r, w') = repo.get_otp now email w in
      let (o, e, c, t, a) = found-true now email code r w' h in
      (o, laws.get_found now email w o e, c, t, a)

  -- A password that is not stored verifies nothing, and is no error.
  verify_otp-missing :
      (now : ℕ) (email code : String) (w : W)
      → stored now email w ≡ none
      → (check now email code w).0 ≡ ok false
  unfolding verify_otp verify_found
  verify_otp-missing now email code w h = rw (laws.get_missing now email w h)

  -- Neither the event nor the identifiers that the service makes change what is stored.
  pub record IsQuiet : Type 0 where
    pub publish_keeps :
        (e : Event OtpVerifiedEventPayload) (w : W) (n : ℕ) (j : String)
        → stored n j (broker.publish_otp_verified e w).1 ≡ stored n j w
    pub new_id_keeps : (w : W) (n : ℕ) (j : String) → stored n j (new_id w).1 ≡ stored n j w

  -- The repository answers: it finds what is stored, and saves and deletes without an error.
  pub record IsReachable : Type 0 where
    pub get_stored :
        (now : ℕ) (email : String) (w : W) (o : Otp)
        → stored now email w ≡ some o
        → (repo.get_otp now email w).0 ≡ ok o
    pub save_runs :
        (now : ℕ) (o : Otp) (w : W) → now < o.expires_at → (repo.save_otp now o w).0 ≡ ok tt
    pub delete_runs : (email : String) (w : W) → (repo.delete_otp email w).0 ≡ ok tt

  abbrev settled : ℕ → String → Result (Unit {0}) × Otp → Exec W Bool
  settled = settle repo renderer broker sender random new_id assets_url

  publish-stored :
      (quiet : IsQuiet) (now : ℕ) (user_id email : String) (w : W) (n : ℕ) (j : String)
      → stored n j
          (publish_verified repo renderer broker sender random new_id assets_url now user_id email
            w).1
        ≡ stored n j w
  unfolding publish_verified
  publish-stored quiet now user_id email w n j =
      grind (arith, quiet.new_id_keeps, quiet.publish_keeps)

  settled-true :
      (quiet : IsQuiet) (reach : IsReachable) (now : ℕ) (email : String)
      (p : Result (Unit {0}) × Otp) (w : W) (n : ℕ)
      → (settled now email p w).0 ≡ ok true
      → stored n email (settled now email p w).1 ≡ none
  unfolding settle
  settled-true quiet reach now email (err e, o) w n h = cc
  settled-true quiet reach now email (ok tt, o) w n h =
      rw (publish-stored quiet, laws.delete_ok email w (reach.delete_runs email w), eq_refl email)

  found-deletes :
      (quiet : IsQuiet) (reach : IsReachable) (now : ℕ) (email code : String) (r : Result Otp)
      (w : W) (n : ℕ)
      → (found now email code r w).0 ≡ ok true
      → stored n email (found now email code r w).1 ≡ none
  unfolding verify_found
  found-deletes quiet reach now email code (err (domain otp_not_found)) w n h = cc
  found-deletes quiet reach now email code (err e) w n h = cc
  found-deletes quiet reach now email code (ok o) w n h =
      settled-true quiet reach now email (verify code now o) w n h

  -- A code is good for one verification: after one that succeeded, with a repository that answers, no
  -- code verifies for the address at any later time, until another password is stored.
  pub verify_otp_once :
      (quiet : IsQuiet) (reach : IsReachable)
      → (now later : ℕ) (email code other : String) (w : W) → (check now email code w).0 ≡ ok true
      → (check later email other (check now email code w).1).0 ≡ ok false
  verify_otp_once quiet reach now later email code other w h =
      verify_otp-missing later email other _ (
        unfold verify_otp in
        found-deletes quiet reach now email code (repo.get_otp now email w).0
          (repo.get_otp now email w).1 later h)

  -- A guess that is not the code leaves the password as it was, its count of attempts too.
  wrong-stored :
      (reach : IsReachable) (now : ℕ) (email guess : String) (o : Otp) (w : W)
      → stored now email w ≡ some o
      → o.email ≡ email
      → now < o.expires_at
      → guess ≢ o.code
      → stored now email (check now email guess w).1 ≡ some o
  unfolding verify_otp verify_found settle verify
  wrong-stored reach now email guess o w s e t ne =
      let w' = (repo.get_otp now email w).1 in
      let saved = reach.save_runs now o w' t in
      rw (reach.get_stored now email w o s) (
        ground (
          arith,
          eq_iff o.code guess,
          eq_iff o.email email,
          saved,
          laws.save_ok now o w' saved now email (omega arith),
        ))

  pub guess_all : ℕ → String → List String → W → W
  guess_all now email [] w = w
  guess_all now email (g ∷ gs) w = guess_all now email gs (check now email g w).1

  -- No number of wrong guesses locks a password: with a repository that answers, after any list of
  -- guesses that are not the code, the code itself still verifies. The limit of three attempts counts
  -- no failed guess.
  pub guess_all-verify_otp :
      (reach : IsReachable) (now : ℕ) (email : String) (o : Otp) (guesses : List String) (w : W)
      → stored now email w ≡ some o
      → o.email ≡ email
      → now < o.expires_at
      → o.attempts < max_otp_attempts
      → All (λ g. g ≢ o.code) guesses
      → (check now email o.code (guess_all now email guesses w)).0 ≡ ok true
  unfolding guess_all
  guess_all-verify_otp reach now email o [] w s e t a ne =
      unfold verify_otp verify_found settle verify in
      rw (reach.get_stored now email w o s) (ground (arith, eq_iff o.code o.code))
  guess_all-verify_otp reach now email o (g ∷ gs) w s e t a ne =
      guess_all-verify_otp reach now email o gs _ (wrong-stored reach now email g o w s e t ne.0) e
        t a ne.1
