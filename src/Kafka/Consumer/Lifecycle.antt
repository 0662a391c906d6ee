-- ===== src/Kafka/Consumer/Lifecycle.antt =====
-- internal/infrastructure/kafka/consumer.go: the consume loop of startSubscription, Close and
-- HealthCheck. The consumer group of sarama and the wait for the workers are parameters. A select
-- with two channels ready takes either: `pick` says which.
use edu_learn_notification_s.Prelude.{
  ℕ, ◌*◌, Bool, true, false, List, [], ◌∷◌, ◌++◌, Option, none, some, length, ltb, if◌then◌else◌,
}
use edu_learn_notification_s.Errors.{Err, Result, ok, err, new, wrap}
use edu_learn_notification_s.Effect.{Exec}
use edu_learn_notification_s.Otp.{second}

-- The channels of the consumer: whether closeCh and errorsCh are closed, and what waits in errorsCh.
pub record Lifecycle : Type 0 where
  pub closed : Bool
  pub errors_closed : Bool
  pub errors : List Err

abbrev pub open_lifecycle : Lifecycle
open_lifecycle = record { closed = false; errors_closed = false; errors = [] }

-- func (c *Consumer) HealthCheck, with the error of a context that has ended
unfoldable pub health_check : (pick : Bool) → Option Err → Lifecycle → Result (Unit {0})
health_check pick none c = if c.closed then err (new "kafka consumer is closed") else ok tt
health_check pick (some e) c =
    if c.closed
    then (if pick
        then err (new "kafka consumer is closed")
        else err (wrap "health check context cancelled" e))
    else err (wrap "health check context cancelled" e)

-- A round of the consume loop: it leaves the loop, or Consume has returned.
pub data Round : Type 0 where
  left : Round
  consumed : Result (Unit {0}) → Round

-- `select { case c.errorsCh <- err: default: }`: a channel of four places
offer : Err → Lifecycle → Lifecycle
offer e c = if ltb (length c.errors) 4 then record c { errors = c.errors ++ e ∷ [] } else c

module _ {W : Type 0} where
  after_consume :
      (is_canceled : Err → Bool) (sleep : ℕ → W → W)
      → Lifecycle
      → Result (Unit {0}) × W
      → Round × (Lifecycle × W)
  unfolding offer
  after_consume is_canceled sleep c (ok u, w) = (Round.consumed (ok u), (c, w))
  after_consume is_canceled sleep c (err e, w) =
      if is_canceled e
      then (Round.consumed (err e), (c, w))
      else (Round.consumed (err e), (offer e c, sleep (2 * second) w))

  -- The body of the loop in startSubscription, with the error of the context that it looks at. The loop is
  -- left where the consumer is closed or the context has ended.
  unfoldable consume_round :
      (is_canceled : Err → Bool) (sleep : ℕ → W → W)
      → Exec W (Unit {0})
      → Option Err
      → Lifecycle × W
      → Round × (Lifecycle × W)
  unfolding after_consume
  consume_round is_canceled sleep consume none (c, w) =
      if c.closed then (Round.left, (c, w)) else after_consume is_canceled sleep c (consume w)
  consume_round is_canceled sleep consume (some e) (c, w) = (Round.left, (c, w))

  closing : (wait : W → W) → Lifecycle → Result (Unit {0}) × W → Result (Unit {0}) × (Lifecycle × W)
  closing wait c (r, w) = (r, (record c { errors_closed = true }, wait w))

  -- func (c *Consumer) Close, which closeOnce runs once; a later call returns no error
  unfoldable pub close :
      (close_group : Exec W (Unit {0})) (wait : W → W) → Exec (Lifecycle × W) (Unit {0})
  unfolding closing
  close close_group wait (c, w) =
      if c.closed
      then (ok tt, (c, w))
      else closing wait (record c { closed = true }) (close_group w)
