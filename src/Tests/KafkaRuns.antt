-- ===== src/Tests/KafkaRuns.antt =====
-- The consumer and the broker: a handler that fails twice, a pipe with one worker, and a producer that
-- takes every message.
use edu_learn_notification_s.Prelude.{
  ℕ, zero, suc, ◌+◌, String, ◌≡◌, ◌≢◌, refl, List, [], ◌∷◌, Option, All, ltb, if◌then◌else◌, arith,
  eq_iff,
}
use edu_learn_notification_s.Errors.{Err, ok, err, new}
use edu_learn_notification_s.Effect.{Exec}
use edu_learn_notification_s.Kafka.Consumer.{
  default_consumer_config, pause, execute_handler, Registry,
}
use edu_learn_notification_s.Kafka.Consumer.Attempts.{
  after, IsFailing, execute_handler_ok, execute_handler_fail,
}
use edu_learn_notification_s.Kafka.Consumer.Pipeline.{
  Pipe, Steps, fresh, Ordered, send, mark, none_left, then_step, Steps-Ordered, Steps-lose,
}
use edu_learn_notification_s.Kafka.Broker.{PublishMetrics}

-- The state counts the calls; the first two fail.
abbrev flaky : Exec ℕ (Unit {0})
flaky calls = (if ltb calls 2 then err (new "timeout") else ok tt, calls + 1)

abbrev broken : Exec ℕ (Unit {0})
broken calls = (err (new "timeout"), calls + 1)

abbrev no_sleep : ℕ → ℕ → ℕ
no_sleep time calls = calls

abbrev retries : ℕ
retries = default_consumer_config.retries

abbrev timeout : ℕ → Err
timeout k = new "timeout"

flaky_fails : IsFailing default_consumer_config no_sleep flaky timeout 2 0
unfolding pause
flaky_fails zero lt = refl
flaky_fails (suc zero) lt = refl
flaky_fails (suc (suc k)) lt = absurd (omega arith)

execute_handler_ok_example :
    execute_handler default_consumer_config no_sleep flaky 0
    ≡ (ok tt, (flaky (after default_consumer_config no_sleep flaky 2 0)).1)
unfolding pause
execute_handler_ok_example =
    execute_handler_ok default_consumer_config no_sleep flaky timeout 2 0 (omega arith) flaky_fails
      refl

execute_handler_fail_example :
    ((n : ℕ)
      → retries ≡ suc n
      → execute_handler default_consumer_config no_sleep broken 0
        ≡ (err (new "timeout"), after default_consumer_config no_sleep broken (suc n) 0))
    × (retries ≡ 0 → execute_handler default_consumer_config no_sleep broken 0 ≡ (ok tt, 0))
execute_handler_fail_example =
    execute_handler_fail default_consumer_config no_sleep broken timeout 0 (λ k lt. refl)

abbrev topics : List String
topics = "b" ∷ "" ∷ "a" ∷ "b" ∷ []

abbrev no_handlers : Registry String
no_handlers = []

a_named : ◌≢◌ {A = String} "a" ""
a_named = ground (arith, eq_iff "a" "")

-- One message is sent and marked, and then the adapter is closed.
abbrev sent : Pipe String 4
sent = record (fresh String 4 1) { jobs = "m" ∷ []; to_mark = "m" ∷ []; enqueued = "m" ∷ [] }

abbrev acknowledged : Pipe String 4
acknowledged = record sent { to_mark = []; marked = "m" ∷ [] }

a_run : Steps String 4 (fresh String 4 1) acknowledged
a_run = then_step (then_step none_left (send "m" refl (omega arith))) (mark [] "m" [] refl)

Steps-Ordered_example : Ordered String 4 acknowledged
Steps-Ordered_example = Steps-Ordered String 4 1 acknowledged a_run

Steps-lose_example :
    (q : Pipe String 4) × Steps String 4 (fresh String 4 3) q
    × (q.marked ≡ "m" ∷ [])
    × ((r : Pipe String 4) → Steps String 4 q r → r.started ≡ [])
Steps-lose_example = Steps-lose String 4 3 "m" (omega arith)

abbrev produce : String → Option String → String → Exec ℕ (Unit {0})
produce topic key message sends = (ok tt, sends + 1)

abbrev zeroes : PublishMetrics
zeroes = record {
  total_published = 0;
  failed_published = 0;
  otp_events = 0;
  notification_events = 0;
}

abbrev batch : List (String × String)
batch = ("a", "{}") ∷ []

batch_whole : All (λ (m : String × String). (m.0 ≢ "") × (m.1 ≢ "")) batch
batch_whole = ground (arith, eq_iff "a" "", eq_iff "{}" "")
