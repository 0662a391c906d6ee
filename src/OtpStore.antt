-- ===== src/OtpStore.antt =====
-- internal/infrastructure/redis/otp_repository.go: one-time passwords in the cache.
pub mod Laws
use Prim.Native.String.{◌++◌}
use edu_learn_notification_s.Prelude.{ℕ, ◌-◌, String, leb, if◌then◌else◌}
use edu_learn_notification_s.Errors.{Result, ok, err, new, domain, otp_not_found}
use edu_learn_notification_s.Effect.{Exec, pure, fail, attempt, context, ◌>>=◌}
use edu_learn_notification_s.Otp.{Otp}
use edu_learn_notification_s.Ports.{Cache, OtpRepository}

unfoldable pub otp_key : String → String
otp_key email = "otp:" ++ email

module _ {W : Type 0} (cache : Cache W Otp) where
  -- func (r *OTPRepository) SaveOTP; `time.Until(t) <= 0` where `t` is not after the present
  unfoldable pub save_otp : ℕ → Otp → Exec W (Unit {0})
  save_otp now otp =
      if leb otp.expires_at now
      then fail (new "OTP already expired")
      else context "failed to save OTP"
          (cache.set now (otp_key otp.email) otp (otp.expires_at - now))

  or_not_found : Result Otp → Exec W Otp
  or_not_found (ok otp) = pure otp
  or_not_found (err e) = fail (domain otp_not_found)

  -- func (r *OTPRepository) GetOTP
  pub get_otp : ℕ → String → Exec W Otp
  unfolding or_not_found
  get_otp now email = do found ← attempt (cache.get now (otp_key email)); or_not_found found

  -- func (r *OTPRepository) DeleteOTP
  pub delete_otp : String → Exec W (Unit {0})
  delete_otp email = cache.delete (otp_key email)

  unfoldable pub otp_repository : OtpRepository W
  unfolding save_otp get_otp delete_otp
  otp_repository = record { save_otp = save_otp; get_otp = get_otp; delete_otp = delete_otp }
