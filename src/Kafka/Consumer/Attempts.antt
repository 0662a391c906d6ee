-- ===== src/Kafka/Consumer/Attempts.antt =====
-- How often a message is handled, and what executeHandler returns.
use edu_learn_notification_s.Prelude.{
  ℕ, zero, suc, ◌+◌, ◌<◌, ◌≡◌, refl, ap, ◌∙◌, Option, none, some, arith,
}
use edu_learn_notification_s.Errors.{Err, Result, ok, err}
use edu_learn_notification_s.Effect.{Exec}
use edu_learn_notification_s.Kafka.Consumer.{
  ConsumerConfig, pause, attempts, last_result, execute_handler,
}

module _ {W : Type 0} (config : ConsumerConfig) (sleep : ℕ → W → W)
    (handle : Exec W (Unit {0})) where
  -- The state after the first `k` attempts, with the waits that follow them.
  abbrev pub after : ℕ → W → W
  after zero w = w
  after (suc k) w = pause config sleep handle (k + 1) (handle (after k w)).1

  -- Every one of the first `n` attempts fails, with the errors given.
  abbrev pub IsFailing : (ℕ → Err) → ℕ → W → Type 0
  IsFailing e n w = (k : ℕ) → k < n → (handle (after k w)).0 ≡ err (e k)

  -- The error that the loop ends with, after `n` more attempts from the number `k + 1` on.
  ended : (ℕ → Err) → ℕ → ℕ → Option Err → Option Err
  ended e zero k last = last
  ended e (suc n) k last = ended e n (suc k) (some (e k))

  ended-last :
      (e : ℕ → Err) (n k : ℕ) (last : Option Err) → ended e (suc n) k last ≡ some (e (k + n))
  unfolding ended
  ended-last e zero k last = ap (λ j. some (e j)) (omega arith)
  ended-last e (suc n) k last =
      let step : suc k + n ≡ k + suc n = omega arith in
      ended-last e n (suc k) (some (e k)) ∙ ap (λ j. some (e j)) step

  -- The loop from the attempt `k + 1` on, up to an attempt `m + 1` that succeeds.
  attempts_ok :
      (e : ℕ → Err) (d k m n : ℕ) (last : Option Err) (w : W)
      → m ≡ k + d
      → d < n
      → IsFailing e m w
      → (handle (after m w)).0 ≡ ok tt
      → attempts config sleep handle n (k + 1) last (after k w) ≡ (ok tt, (handle (after m w)).1)
  unfolding attempts
  attempts_ok e d k m zero last w s lt fail h = absurd (omega arith)
  attempts_ok e zero k m (suc n) last w s lt fail h =
      let same : m ≡ k = omega (arith, s) in let h' = rw same at h in rw (same, attempts, h') refl
  attempts_ok e (suc d) k m (suc n) last w s lt fail h =
      let number : k + 1 + 1 ≡ suc k + 1 = omega arith in
      rw (attempts, fail k (omega arith), number)
        (attempts_ok e d (suc k) m n (some (e k)) w (omega arith) (omega arith) fail h)

  -- The loop with `n` attempts left, all of which fail.
  attempts_fail :
      (e : ℕ → Err) (n k m : ℕ) (last : Option Err) (w : W)
      → m ≡ k + n
      → IsFailing e m w
      → attempts config sleep handle n (k + 1) last (after k w)
        ≡ (last_result config sleep handle (ended e n k last), after m w)
  unfolding attempts ended
  attempts_fail e zero k m last w s fail = let same : m ≡ k = omega (arith, s) in rw same refl
  attempts_fail e (suc n) k m last w s fail =
      let number : k + 1 + 1 ≡ suc k + 1 = omega arith in
      rw (attempts, fail k (omega arith), number)
        (attempts_fail e n (suc k) m (some (e k)) w (omega arith) fail)

  -- A message is handled until an attempt succeeds: if the attempts before the number `m + 1` fail, and
  -- this one, within the retries that are configured, succeeds, then executeHandler returns no error
  -- and handles the message no further.
  pub execute_handler_ok :
      (e : ℕ → Err) (m : ℕ) (w : W)
      → m < config.retries
      → IsFailing e m w
      → (handle (after m w)).0 ≡ ok tt
      → execute_handler config sleep handle w ≡ (ok tt, (handle (after m w)).1)
  unfolding execute_handler
  execute_handler_ok e m w lt fail h =
      attempts_ok e m 0 m config.retries none w (omega arith) lt fail h

  abbrev with_state : W → Option Err → Result (Unit {0}) × W
  with_state w last = (last_result config sleep handle last, w)

  -- If every attempt that is configured fails, executeHandler returns the error of the last after that
  -- many attempts; with no retries configured it returns no error, and has not handled the message.
  pub execute_handler_fail :
      (e : ℕ → Err) (w : W)
      → IsFailing e config.retries w
      → ((n : ℕ)
          → config.retries ≡ suc n
          → execute_handler config sleep handle w ≡ (err (e n), after (suc n) w))
        × (config.retries ≡ 0 → execute_handler config sleep handle w ≡ (ok tt, w))
  unfolding execute_handler last_result ended
  execute_handler_fail e w fail =
      let all = attempts_fail e config.retries 0 config.retries none w (omega arith) fail in
      let end_of : ℕ → Result (Unit {0}) × W =
        λ r. (last_result config sleep handle (ended e r 0 none), after r w) in
      (
        λ n c.
            let number : 0 + n ≡ n = omega arith in
            all
            ∙ ap end_of c
            ∙ ap (with_state (after (suc n) w))
                (ended-last e n 0 none ∙ ap (λ j. some (e j)) number),
        λ c. all ∙ ap end_of c,
      )
