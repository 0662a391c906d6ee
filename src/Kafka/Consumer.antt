-- ===== src/Kafka/Consumer.antt =====
-- internal/infrastructure/kafka/consumer.go: the registry of the handlers, the topics that are
-- subscribed, and the attempts to handle a message. sarama is not modelled; `sleep` waits, with what
-- the rest of the program does in the meantime. An int that counts is a number: below 0 is as 0.
pub mod Attempts
pub mod Topics
pub mod Lifecycle
pub mod Pipeline
use edu_learn_notification_s.Prelude.{
  ℕ, zero, suc, ◌+◌, ◌*◌, Bool, true, false, not, ◌||◌, ◌&&◌, String, List, [], ◌∷◌, ◌++◌, Option,
  none, some, any, length, eqb, ltb, ◌==◌, if◌then◌else◌,
}
use text.Mathlib.Text.{is_lt}
use Prim.Native.String.{compare}
use edu_learn_notification_s.Errors.{Err, Result, ok, err, new, ◌>>=◌}
use edu_learn_notification_s.Effect.{Exec}
use edu_learn_notification_s.Otp.{second}

pub record ConsumerConfig : Type 0 where
  pub workers : ℕ
  pub retries : ℕ
  pub retry_delay : ℕ
  pub buffer_size : ℕ

-- func DefaultConsumerConfig() ConsumerConfig
abbrev pub default_consumer_config : ConsumerConfig
default_consumer_config = record {
  workers = 8;
  retries = 3;
  retry_delay = 2 * second;
  buffer_size = 256;
}

-- The field `topicHandlers`: a topic stands once.
abbrev pub Registry : Type 0 → Type 0
Registry H = List (String × List H)

module _ {H : Type 0} where
  -- `m[topic]`, with no handlers for a missing topic
  pub handlers_of : String → Registry H → List H
  handlers_of topic [] = []
  handlers_of topic ((t, hs) ∷ rest) = if t == topic then hs else handlers_of topic rest

  -- `m[topic] = append(m[topic], handlers...)`
  pub append_handlers : String → List H → Registry H → Registry H
  append_handlers topic hs [] = (topic, hs) ∷ []
  append_handlers topic hs ((t, old) ∷ rest) =
      let later = append_handlers topic hs rest in
      if t == topic then (t, old ++ hs) ∷ rest else (t, old) ∷ later

  -- The loop over the handlers that are given: one that is nil is an error.
  pub check_handlers : List (Option H) → Result (List H)
  check_handlers [] = ok []
  check_handlers (none ∷ rest) = err (new "handler is nil")
  check_handlers (some h ∷ rest) = do hs ← check_handlers rest; ok (h ∷ hs)

  registered : String → Result (List H) → Registry H → Result (Unit {0}) × Registry H
  registered topic (ok hs) r = (ok tt, append_handlers topic hs r)
  registered topic (err e) r = (err e, r)

  -- func (c *Consumer) RegisterHandlers
  pub register_handlers : String → List (Option H) → Registry H → Result (Unit {0}) × Registry H
  unfolding registered
  register_handlers topic handlers r =
      if topic == ""
      then (err (new "topic name cannot be empty"), r)
      else if eqb (length handlers) 0
      then (err (new "at least one handler required for topic"), r)
      else registered topic (check_handlers handlers) r

module _ {H : Type 0} where
  or_panic : Result (Unit {0}) × Registry H → Option (Registry H)
  or_panic (ok u, r) = some r
  or_panic (err e, r) = none

  -- func (c *Consumer) MustRegisterHandlers: a panic is none
  unfoldable must_register_handlers : String → List (Option H) → Registry H → Option (Registry H)
  unfolding or_panic
  must_register_handlers topic handlers r = or_panic (register_handlers topic handlers r)

-- The set of the texts that are not empty.
pub topic_set : List String → List String
topic_set [] = []
topic_set (t ∷ ts) =
    let set = topic_set ts in if t == "" || any (λ s. s == t) set then set else t ∷ set

-- sort.Strings
pub insert_sorted : String → List String → List String
insert_sorted t [] = t ∷ []
insert_sorted t (s ∷ ss) =
    let later = insert_sorted t ss in if is_lt (compare s t) then s ∷ later else t ∷ s ∷ ss

pub sort_strings : List String → List String
unfolding insert_sorted
sort_strings [] = []
sort_strings (t ∷ ts) = insert_sorted t (sort_strings ts)

-- func sanitizeTopics(topics []string) []string
pub sanitize_topics : List String → List String
unfolding topic_set sort_strings
sanitize_topics topics = sort_strings (topic_set topics)

require_topics : List String → Result (List String)
require_topics [] = err (new "no valid topics found to subscribe")
require_topics (t ∷ ts) = ok (t ∷ ts)

module _ {H : Type 0} where
  -- The loop of StartConsuming over the registry.
  collect_topics : Registry H → Result (List String)
  collect_topics [] = ok []
  collect_topics ((topic, hs) ∷ rest) = do
    topics ←
        (if topic == "" || eqb (length hs) 0
          then err (new "invalid topic or empty handlers for topic")
          else collect_topics rest)
    ok (topic ∷ topics)

  -- func (c *Consumer) StartConsuming, up to the subscription: the topics that it subscribes.
  start_consuming : Registry H → Result (List String)
  unfolding require_topics
  start_consuming [] = err (new "no handlers registered for consumption")
  start_consuming (entry ∷ rest) = do
    topics ← collect_topics (entry ∷ rest)
    require_topics (sanitize_topics topics)

module _ {W : Type 0} (config : ConsumerConfig) (sleep : ℕ → W → W)
    (handle : Exec W (Unit {0})) where
  -- The wait after a failed attempt, none after the last.
  unfoldable pub pause : ℕ → W → W
  pause attempt w = if ltb attempt config.retries then sleep (config.retry_delay * attempt) w else w

  last_result : Option Err → Result (Unit {0})
  last_result none = ok tt
  last_result (some e) = err e

  -- The loop of executeHandler, with `n` attempts left from the number `attempt` on.
  pub attempts : ℕ → ℕ → Option Err → Exec W (Unit {0})
  unfolding pause last_result
  attempts zero attempt last w = (last_result last, w)
  attempts (suc n) attempt last w = elim (handle w).0 [
    | ok u ↦ (ok tt, (handle w).1)
    | err e ↦ attempts n (attempt + 1) (some e) (pause attempt (handle w).1)
  ]

  -- func (h *handlerAdapter) executeHandler, on one handler and message
  pub execute_handler : Exec W (Unit {0})
  unfolding attempts
  execute_handler = attempts config.retries 1 none

-- `select { case h.errorsCh <- err: default: }` of reportHandlerError: a channel of four places.
unfoldable report_error : Result (Unit {0}) → List Err → List Err
report_error (ok u) channel = channel
report_error (err e) channel = if ltb (length channel) 4 then channel ++ e ∷ [] else channel
