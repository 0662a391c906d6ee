-- ===== src/EmailOtp/Sent.antt =====
-- A password that is sent, and its verification.
use edu_learn_notification_s.Prelude.{
  ℕ, ◌+◌, ◌≤◌, ◌<◌, Bool, true, String, List, ◌≡◌, ◌↔◌, inl, inr, sym, subst, ◌∙◌, Option, some,
  arith, eq_iff,
}
use edu_learn_notification_s.Errors.{Result, ok, Result-cases}
use edu_learn_notification_s.Effect.{Exec}
use edu_learn_notification_s.Otp.{
  Otp, new_otp, verify, generate_otp, otp_expiration, max_otp_attempts,
}
use edu_learn_notification_s.Notification.{Notification}
use edu_learn_notification_s.Ports.{OtpRepository, TemplateRenderer, EventPublisher, EmailSender}
use edu_learn_notification_s.OtpStore.Laws.{OtpRepositoryLaws}
use edu_learn_notification_s.Redis.Laws.{after_set}
use edu_learn_notification_s.EmailOtp.{send_otp, make_otp, verify_otp, verify_found, settle}
use edu_learn_notification_s.EmailOtp.Verification.{verify_otp_sound, IsReachable}

new_otp-ok :
    (draw : ℕ → Result ℕ) (now : ℕ) (user_id email : String) (o : Otp)
    → new_otp draw now user_id email ≡ ok o
    → (o.email ≡ email) × (o.expires_at ≡ now + otp_expiration) × (o.attempts ≡ 0)
unfolding new_otp
new_otp-ok draw now user_id email o h = elim (Result-cases (generate_otp draw)) [
  | inr (e, eq) ↦ ground (arith, h, eq)
  | inl (cs, eq) ↦ (ground (arith, h, eq), ground (arith, h, eq), ground (arith, h, eq))
]

after_set-own :
    (o : Otp) (email : String) (later : ℕ) (old : Option Otp)
    → o.email ≡ email
    → later < o.expires_at
    → after_set o.email o o.expires_at later email old ≡ some o
after_set-own o email later old own before = ground (arith, eq_iff o.email email)

module _ {W : Type 0} (repo : OtpRepository W) (stored : ℕ → String → W → Option Otp)
    (laws : OtpRepositoryLaws repo stored) (renderer : TemplateRenderer W)
    (broker : EventPublisher W) (sender : EmailSender W) (random : W → ℕ → Result ℕ)
    (new_id : Exec W String) (assets_url : String) where
  abbrev pub send : ℕ → String → String → String → Exec W (Unit {0})
  send = send_otp repo renderer broker sender random new_id assets_url

  -- Neither the templates, the identifiers nor the mails that the service sends change what is stored.
  pub record IsCalm : Type 0 where
    pub render_keeps :
        (name : String) (fields : List (String × String)) (w : W) (n : ℕ) (j : String)
        → stored n j (renderer.render name fields w).1 ≡ stored n j w
    pub new_id_keeps : (w : W) (n : ℕ) (j : String) → stored n j (new_id w).1 ≡ stored n j w
    pub send_keeps :
        (m : Notification) (w : W) (n : ℕ) (j : String)
        → stored n j (sender.send m w).1 ≡ stored n j w

  send_otp-stored :
      (calm : IsCalm) (now : ℕ) (user_id email username : String) (w : W)
      → (send now user_id email username w).0 ≡ ok tt
      → (o : Otp) × (new_otp (random w) now user_id email ≡ ok o)
        × ((repo.save_otp now o w).0 ≡ ok tt)
        × ((n : ℕ) (j : String)
            → stored n j (send now user_id email username w).1
              ≡ stored n j (repo.save_otp now o w).1)
  unfolding send_otp make_otp
  send_otp-stored calm now user_id email username w h =
      elim (Result-cases (new_otp (random w) now user_id email)) [
        | inr (e, eq) ↦ ground (arith, h, eq)
        | inl (o, eq) ↦ elim (Result-cases (repo.save_otp now o w).0) [
          | inr (e, bad) ↦ ground (arith, h, eq, bad)
          | inl (u, saved) ↦ (
            o,
            eq,
            saved,
            λ n j.
                rw (eq, saved)
                  (grind (arith, calm.render_keeps, calm.new_id_keeps, calm.send_keeps)),
          )
        ]
      ]

  abbrev check : ℕ → String → String → Exec W Bool
  check = verify_otp repo renderer broker sender random new_id assets_url

  check-stored :
      (reach : IsReachable repo stored laws renderer broker sender random new_id assets_url)
      → (now : ℕ) (email : String) (o : Otp) (w : W) → stored now email w ≡ some o
      → now < o.expires_at
      → o.attempts < max_otp_attempts
      → (check now email o.code w).0 ≡ ok true
  unfolding verify_otp verify_found settle verify
  check-stored reach now email o w s t a =
      rw (reach.get_stored now email w o s) (ground (arith, eq_iff o.code o.code))

  -- A password that SendOTP has sent, with a repository that answers, verifies until it expires: after a
  -- SendOTP that succeeds there is one code, drawn in it, which VerifyOTP accepts at each moment of the ten
  -- minutes that follow, and it accepts no other.
  pub send_otp-verify_otp :
      IsCalm
      → IsReachable repo stored laws renderer broker sender random new_id assets_url
      → (now : ℕ) (user_id email username : String) (w : W)
      → (send now user_id email username w).0 ≡ ok tt
      → (o : Otp) × (new_otp (random w) now user_id email ≡ ok o)
        × ((later : ℕ) (code : String)
            → now ≤ later
            → later < now + otp_expiration
            → ((check later email code (send now user_id email username w).1).0 ≡ ok true)
              ↔ (code ≡ o.code))
  send_otp-verify_otp calm reach now user_id email username w h =
      let (o, made, saved, kept) = send_otp-stored calm now user_id email username w h in
      let (own, until, none_yet) = new_otp-ok (random w) now user_id email o made in
      let v = (send now user_id email username w).1 in
      (
        o,
        made,
        λ later code from before.
            let there : stored later email v ≡ some o =
              kept later email
              ∙ laws.save_ok now o w saved later email from
              ∙ after_set-own o email later _ own (omega (arith, until, before)) in
            (
              λ good.
                  let (p, found, same, rest, left) =
                    verify_otp_sound repo stored laws renderer broker sender random new_id
                      assets_url later email code v good in
                  let agreed : some p ≡ some o = sym found ∙ there in cc,
              λ same.
                  subst (λ c. (check later email c v).0 ≡ ok true) (sym same)
                    (check-stored reach later email o v there (omega (arith, until, before))
                      (omega (arith, none_yet))),
            ),
      )
