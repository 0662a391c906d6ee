-- ===== src/Errors.antt =====
-- internal/domain/errors/errors.go, and the error values of Go that the program builds: a
-- sentinel, `errors.New(text)` or `fmt.Errorf` with no `%w`, and `fmt.Errorf("text: %w", err)`.
-- The formatted arguments inside a text are left out of it.
use edu_learn_notification_s.Prelude.{String, ◌≡◌, refl, ◌⊎◌, inl, inr}

-- The sentinels of the domain.
pub data DomainError : Type 0 where
  otp_not_found otp_expired rate_limit database kafka_produce email_send already_processed not_found
        unauthorized invalid_otp notification_not_found invalid_recipient
        invalid_notification_type :
      DomainError

pub data Err : Type 0 where
  domain : DomainError → Err
  new : String → Err
  wrap : String → Err → Err

-- What a fallible call returns.
pub data Result {ℓ} (A : Type ℓ) : Type ℓ where
  ok : A → Result A
  err : Err → Result A

module _ {A B : Type 0} where
  infixl 5 ◌>>=◌
  -- What follows runs on a result, and not after an error.
  abbrev pub ◌>>=◌ : Result A → (A → Result B) → Result B
  ok result >>= next = next result
  err failure >>= next = err failure

-- `if err != nil { return fmt.Errorf("text: %w", err) }`
abbrev pub with_context {ℓ} : {A : Type ℓ} → String → Result A → Result A
with_context text (ok a) = ok a
with_context text (err e) = err (wrap text e)

pub Result-cases {ℓ} :
    {A : Type ℓ} (r : Result A) → ((a : A) × (r ≡ ok a)) ⊎ ((e : Err) × (r ≡ err e))
Result-cases (ok a) = inl (a, refl)
Result-cases (err e) = inr (e, refl)
