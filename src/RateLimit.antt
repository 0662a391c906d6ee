-- ===== src/RateLimit.antt =====
-- internal/infrastructure/ratelimit/retelimit.go: a fixed window for each key, counted in Redis by
-- INCR. A window below a second is a division by zero in the source; the model has `/ 0` as 0, and
-- the theorems that depend on it ask for a window of a second at least.
pub mod Laws
pub mod Window
use Prim.Native.String.{◌++◌}
use edu_learn_notification_s.Prelude.{
  ℕ, ◌+◌, ◌-◌, ◌/◌, eqb, ltb, Bool, String, List, [], ◌∷◌, decimal, if◌then◌else◌,
}
use edu_learn_notification_s.Errors.{Result, ok, err, domain, rate_limit}
use edu_learn_notification_s.Effect.{Exec, pure, fail, attempt, ignore, ◌>>=◌, ◌>>◌}
use edu_learn_notification_s.Otp.{second, minute}
use edu_learn_notification_s.Ports.{Counters}

pub record RateLimiter : Type 0 where
  pub rate : ℕ
  pub window : ℕ
  pub key_prefix : String

-- func DefaultRateLimiter
abbrev pub default_rate_limiter : RateLimiter
default_rate_limiter = record { rate = 10; window = minute; key_prefix = "notification" }

-- Seconds from the zero time of Go to the Unix epoch.
abbrev pub unix_epoch : ℕ
unix_epoch = 62_135_596_800

-- now.Unix() / int64(l.window.Seconds())
unfoldable pub window_number : RateLimiter → ℕ → ℕ
window_number l now = (now / second - unix_epoch) / (l.window / second)

-- The counters of a key: what stands before the number of the window.
pub counter_prefix : RateLimiter → String → String
counter_prefix l key = ((l.key_prefix ++ ":rate_limit:") ++ key) ++ ":"

pub window_key : RateLimiter → ℕ → String → String
unfolding counter_prefix window_number
window_key l now key = counter_prefix l key ++ decimal (window_number l now)

module _ {W : Type 0} (cache : Counters W) (l : RateLimiter) where
  -- The expiry is set when the window's first request is counted.
  start_window : ℕ → String → ℕ → Exec W (Unit {0})
  start_window now counter count =
      if eqb count 1 then ignore (cache.expire now counter (l.window + second)) else pure tt

  admit : ℕ → String → Result ℕ → Exec W (Unit {0})
  unfolding start_window
  admit now counter (err e) = fail (domain rate_limit)
  admit now counter (ok count) = do
    start_window now counter count
    if ltb l.rate count then fail (domain rate_limit) else pure tt

  -- func (l *RateLimiter) Allow
  pub allow : ℕ → String → Exec W (Unit {0})
  unfolding admit
  allow now key = do
    let counter = window_key l now key
    counted ← attempt (cache.incr now counter)
    admit now counter counted

  -- func (l *RateLimiter) Reset
  pub reset : String → Exec W (Unit {0})
  reset key = do cache.del ((counter_prefix l key ++ "*") ∷ []); pure tt
