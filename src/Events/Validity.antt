-- ===== src/Events/Validity.antt =====
-- What the validation of the incoming events accepts.
use edu_learn_notification_s.Prelude.{
  Bool, true, String, List, [], ◌∷◌, ◌≡◌, ◌≢◌, ◌↔◌, ◌<◌, All, arith, eq_iff, ◌==◌, ◌||◌,
}
use edu_learn_notification_s.Errors.{ok}
use edu_learn_notification_s.Events.{
  ForgotPasswordRequestPayload, EmailNotificationPayload, validate_forgot_password, check_copies,
  validate_email,
}
use text.Mathlib.Text.{starts_with}

module _ (is_address : String → Bool) where
  abbrev pub IsCopy : String → Type 0
  IsCopy c = (c == "" || is_address c) ≡ true

  check_copies_iff :
      (text : String) (cs : List String) → (check_copies is_address text cs ≡ ok tt) ↔ All IsCopy cs
  unfolding check_copies
  check_copies_iff text [] = ground arith
  check_copies_iff text (c ∷ cs) = ground (arith, check_copies_iff text cs)

  -- An email event is accepted exactly when its recipient, subject and body are there, the recipient
  -- parses as an address, and so does each CC and BCC entry that is not empty.
  pub validate_email_iff :
      (p : EmailNotificationPayload)
      → (validate_email is_address p ≡ ok tt) ↔ (
          (p.to ≢ "")
          × (p.subject ≢ "")
          × (p.body ≢ "")
          × (is_address p.to ≡ true)
          × All IsCopy p.cc
          × All IsCopy p.bcc)
  unfolding validate_email
  validate_email_iff p = ground (
    arith,
    eq_iff p.to "",
    eq_iff p.subject "",
    eq_iff p.body "",
    check_copies_iff "invalid 'cc' email format" p.cc,
    check_copies_iff "invalid 'bcc' email format" p.bcc,
  )

  -- A password reset is accepted exactly when its user, address and link are there, the address
  -- parses, the expiry is positive and the link starts with "http".
  pub validate_forgot_password_iff :
      (p : ForgotPasswordRequestPayload)
      → (validate_forgot_password is_address p ≡ ok tt) ↔ (
          (p.user_id ≢ "")
          × (p.email ≢ "")
          × (p.reset_link ≢ "")
          × (is_address p.email ≡ true)
          × (0 < p.expiry)
          × (starts_with p.reset_link "http" ≡ true))
  unfolding validate_forgot_password
  validate_forgot_password_iff p =
      ground (arith, eq_iff p.user_id "", eq_iff p.email "", eq_iff p.reset_link "")
