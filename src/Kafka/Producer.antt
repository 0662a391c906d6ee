-- ===== src/Kafka/Producer.antt =====
-- internal/infrastructure/kafka/producer.go, and the calls of broker.go that add to it: the retries, the
-- health message and the subscriptions. sarama's producer is the parameter `send_message`; `ended` is
-- the error of the context in the state at hand. An int that counts is a number: below 0 is as 0.
use edu_learn_notification_s.Prelude.{
  ℕ, zero, suc, ◌+◌, ◌*◌, String, List, Option, none, some, length, eqb, ltb, ◌==◌, if◌then◌else◌,
}
use edu_learn_notification_s.Errors.{Err, Result, ok, err, new, wrap}
use edu_learn_notification_s.Effect.{Exec, context, pure}
use edu_learn_notification_s.Otp.{second}
use edu_learn_notification_s.Kafka.Consumer.{Registry, register_handlers}
use edu_learn_notification_s.Kafka.Broker.{PublishMetrics}

module _ {W : Type 0} (ended : W → Option Err)
    (send_message : String → Option String → String → Exec W (Unit {0})) where
  -- The body of Produce and of ProduceWithKey: the parameter `produce` of the broker.
  unfoldable pub produce_message : String → Option String → String → Exec W (Unit {0})
  produce_message topic key value w = elim (ended w) [
    | some e ↦ (err e, w)
    | none ↦ send_message topic key value w
  ]

  -- func (p *Producer) Produce
  produce : String → String → Exec W (Unit {0})
  unfolding produce_message
  produce topic value = produce_message topic none value

  -- func (p *Producer) ProduceWithKey
  unfoldable produce_with_key : String → String → String → Exec W (Unit {0})
  unfolding produce_message
  produce_with_key topic key value = produce_message topic (some key) value

  -- The goroutine of ProduceAsync, to its end; the callback may be nil.
  unfoldable produce_async : String → String → Option (Result (Unit {0}) → W → W) → W → W
  unfolding produce
  produce_async topic message callback w =
      let (r, w') = produce topic message w in elim callback [ none ↦ w' | some f ↦ f r w' ]

  failed_after : Option Err → Err
  failed_after none = new "failed after retries"
  failed_after (some e) = wrap "failed after retries" e

  -- `wait` passes the time, up to the end of the context: then it gives the context's error.
  module _ (wait : ℕ → W → Option Err × W) where
    -- The wait behind an attempt, none behind the last.
    backoff : ℕ → ℕ → W → Option Err × W
    backoff max_retries attempt w =
        if ltb attempt max_retries then wait (attempt * second) w else (none, w)

    -- The loop of ProduceWithRetry, with `n` attempts left from the number `attempt` on.
    retry_from : ℕ → String → String → ℕ → ℕ → Option Err → Exec W (Unit {0})
    unfolding backoff produce failed_after
    retry_from max_retries topic message zero attempt last w = (err (failed_after last), w)
    retry_from max_retries topic message (suc n) attempt last w =
        let (r, w1) = produce topic message w in
        elim r [
          | ok u ↦ (ok tt, w1)
          | err e ↦
              let (interrupted, w2) = backoff max_retries attempt w1 in
              elim interrupted [
                | some c ↦ (err c, w2)
                | none ↦ retry_from max_retries topic message n (attempt + 1) (some e) w2
              ]
        ]

    -- func (p *Producer) ProduceWithRetry
    unfoldable produce_with_retry : String → String → ℕ → Exec W (Unit {0})
    unfolding retry_from
    produce_with_retry topic message max_retries =
        retry_from max_retries topic message max_retries 1 none

  -- func (a *MessageBrokerAdapter) Health; the text of the message holds the time
  unfoldable health : (test_message : String) → Exec W (Unit {0})
  unfolding produce
  health test_message = context "message broker unhealthy" (produce "health-check" test_message)

-- func (a *MessageBrokerAdapter) Close over func (p *Producer) Close, where there is a producer
unfoldable close_broker : {W : Type 0} → Option (Exec W (Unit {0})) → Exec W (Unit {0})
close_broker none = pure tt
close_broker (some close_producer) = close_producer

-- func (a *MessageBrokerAdapter) GetMetrics, a copy
abbrev get_metrics : {W : Type 0} → PublishMetrics × W → PublishMetrics
get_metrics (m, w) = m

-- func (a *MessageBrokerAdapter) Subscribe, where the consumer may be nil
unfoldable subscribe :
    {H : Type 0}
    → String
    → List (Option H)
    → Option (Registry H)
    → Result (Unit {0}) × Option (Registry H)
subscribe topic handlers none = (err (new "consumer is not configured"), none)
subscribe topic handlers (some r) =
    let (result, r') = register_handlers topic handlers r in
    if topic == ""
    then (err (new "topic must not be empty"), some r)
    else if eqb (length handlers) 0
    then (err (new "at least one handler must be provided"), some r)
    else (result, some r')
