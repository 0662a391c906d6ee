-- ===== src/Tests/HealthRuns.antt =====
-- The probes over a state whose clock is the state itself: Redis answers up to the time 8.
use edu_learn_notification_s.Prelude.{ℕ, ◌+◌, String, ◌≡◌, refl, some, ltb, if◌then◌else◌}
use edu_learn_notification_s.Errors.{Result, ok, err, new}
use edu_learn_notification_s.Effect.{Exec}
use edu_learn_notification_s.Kafka.Consumer.Lifecycle.{Lifecycle, open_lifecycle}
use edu_learn_notification_s.Health.{HealthResponse, HealthChecker, fresh_writer, MemStats}
use edu_learn_notification_s.Health.Status.{IsReady, answer, readiness_handler-status}

abbrev checker : HealthChecker
checker = record { start_time = 1; service_name = "notification"; version = "1.0.0" }

abbrev no_print : ℕ → String
no_print n = ""

abbrev no_json : HealthResponse → Result String
no_json r = err (new "closed")

abbrev ping_database : Exec ℕ (Unit {0})
ping_database now = (ok tt, now + 2)

abbrev ping_redis : Exec ℕ (Unit {0})
ping_redis now = if ltb now 8 then (ok tt, now + 1) else (err (new "redis: timeout"), now + 5)

abbrev running : ℕ → Lifecycle
running now = open_lifecycle

abbrev full_memory : ℕ → MemStats
full_memory now = record { alloc = 95; sys = 100 }

readiness_handler-status_example :
    (IsReady checker (λ n. n) no_print no_json ping_database ping_redis running full_memory 7
      → (answer checker
          (λ n. n)
          no_print
          no_json
          ping_database
          ping_redis
          running
          full_memory
          fresh_writer
          7).status
        ≡ some 200)
    × (¬ IsReady checker (λ n. n) no_print no_json ping_database ping_redis running full_memory 7
        → (answer checker
            (λ n. n)
            no_print
            no_json
            ping_database
            ping_redis
            running
            full_memory
            fresh_writer
            7).status
          ≡ some 503)
readiness_handler-status_example =
    readiness_handler-status checker (λ n. n) no_print no_json ping_database ping_redis running
      full_memory fresh_writer 7 refl
