-- ===== src/Health.antt =====
-- internal/infrastructure/health/health.go: the probes of the service and their HTTP answers. The
-- query of gorm and the ping of the cache are the parameters `ping_database` and `ping_redis`, the Go
-- runtime's statistics `read_mem_stats`, the clock `clock`; `print` writes a duration, `encode_*` JSON.
pub mod Status
use edu_learn_notification_s.Prelude.{
  ℕ, ◌-◌, ◌*◌, Bool, true, false, String, List, map, [], ◌∷◌, ◌++◌, Option, none, some, ltb,
  if◌then◌else◌,
}
use edu_learn_notification_s.Errors.{Err, Result, ok, err}
use edu_learn_notification_s.Effect.{Exec}
use edu_learn_notification_s.Kafka.Consumer.Lifecycle.{Lifecycle, health_check}

pub data HealthStatus : Type 0 where
  healthy unhealthy degraded : HealthStatus

-- A field that is left out of the JSON where it is empty is an option.
pub record HealthCheck : Type 0 where
  pub name : String
  pub status : HealthStatus
  pub message : String
  pub duration : Option String
  pub error : Option Err

pub record HealthResponse : Type 0 where
  pub status : HealthStatus
  pub timestamp : ℕ
  pub service : String
  pub version : String
  pub checks : List (String × HealthCheck)
  pub uptime : String

-- What has been sent of an answer. The header goes out with the first status; later ones are dropped.
pub record ResponseWriter : Type 0 where
  pub content_type : String
  pub status : Option ℕ
  pub body : List String

abbrev pub fresh_writer : ResponseWriter
fresh_writer = record { content_type = ""; status = none; body = [] }

set_content_type : String → ResponseWriter → ResponseWriter
set_content_type text w = record w { content_type = text }

write_header : ℕ → ResponseWriter → ResponseWriter
write_header code w = elim w.status [ none ↦ record w { status = some code } | some sent ↦ w ]

-- json.NewEncoder(w).Encode, or else http.Error of 500 behind the header that is out
write_json : Result String → ResponseWriter → ResponseWriter
unfolding write_header
write_json (ok text) w = record w { body = w.body ++ text ∷ [] }
write_json (err e) w =
    let w' = write_header 500 w in record w' { body = w'.body ++ "Internal server error" ∷ [] }

-- The loop of determineOverallStatus: whether a check is unhealthy, and whether one is degraded.
seen : List HealthCheck → Bool × Bool → Bool × Bool
seen [] flags = flags
seen (c ∷ cs) (has_unhealthy, has_degraded) = elim c.status [
  | unhealthy ↦ seen cs (true, has_degraded)
  | degraded ↦ seen cs (has_unhealthy, true)
  | healthy ↦ seen cs (has_unhealthy, has_degraded)
]

worst : Bool × Bool → HealthStatus
worst (has_unhealthy, has_degraded) =
    if has_unhealthy
    then HealthStatus.unhealthy
    else if has_degraded
    then HealthStatus.degraded
    else HealthStatus.healthy

-- func (h *HealthChecker) determineOverallStatus, in the order of the map in that run
pub determine_overall_status : List HealthCheck → HealthStatus
unfolding seen worst
determine_overall_status checks = worst (seen checks (false, false))

pub status_code : HealthStatus → ℕ
status_code unhealthy = 503
status_code degraded = 200
status_code healthy = 200

-- func (h *HealthChecker) LivenessHandler
unfoldable liveness_handler :
    (encode_status : HealthStatus → Result String) → ResponseWriter → ResponseWriter
unfolding set_content_type write_header write_json
liveness_handler encode_status w =
    write_json (encode_status HealthStatus.healthy)
      (write_header 200 (set_content_type "application/json" w))

-- func (h *HealthChecker) checkLiveness
abbrev check_liveness : List (String × HealthCheck)
check_liveness =
    (
      "service",
      record {
        name = "service";
        status = HealthStatus.healthy;
        message = "Service is running";
        duration = none;
        error = none;
      },
    )
    ∷ []

-- The result of a probe that took `duration`.
pub probed : String → String → String → String → Result (Unit {0}) → HealthCheck
probed name good bad duration (ok u) = record {
  name = name;
  status = HealthStatus.healthy;
  message = good;
  duration = some duration;
  error = none;
}
probed name good bad duration (err e) = record {
  name = name;
  status = HealthStatus.unhealthy;
  message = bad;
  duration = some duration;
  error = some e;
}

-- The statistics of the runtime that the check of the memory reads, in bytes.
pub record MemStats : Type 0 where
  pub alloc : ℕ
  pub sys : ℕ

-- `float64(m.Alloc) / float64(m.Sys) * 100 > 90`, without the rounding of floating point
abbrev pub is_above_90_percent : MemStats → Bool
is_above_90_percent m = ltb (90 * m.sys) (100 * m.alloc)

module _ {W : Type 0} (clock : W → ℕ) (print : ℕ → String) where
  timed : Exec W (Unit {0}) → W → Result (Unit {0}) × (String × W)
  timed probe w = let (r, w') = probe w in (r, (print (clock w' - clock w), w'))

  reported : String → String → String → Result (Unit {0}) × (String × W) → HealthCheck × W
  unfolding probed
  reported name good bad (r, (duration, w)) = (probed name good bad duration r, w)

  -- func (h *HealthChecker) checkDatabase
  pub check_database : Exec W (Unit {0}) → W → HealthCheck × W
  unfolding timed reported
  check_database ping_database w =
      reported "database" "Database connection successful" "Database connection failed"
        (timed ping_database w)

  -- func (h *HealthChecker) checkRedis
  pub check_redis : Exec W (Unit {0}) → W → HealthCheck × W
  unfolding timed reported
  check_redis ping_redis w =
      reported "redis" "Redis connection successful" "Redis connection failed" (timed ping_redis w)

  -- func (h *HealthChecker) checkKafka, on a context of five seconds that has just been made
  pub check_kafka : (W → Lifecycle) → W → HealthCheck × W
  unfolding timed reported
  check_kafka consumer w =
      reported "kafka" "Kafka connection successful" "kafka connection failed"
        (timed (λ v. (health_check true none (consumer v), v)) w)

  -- func (h *HealthChecker) checkMemory; the messages without the percentage
  pub check_memory : (W → MemStats) → W → HealthCheck
  check_memory read_mem_stats w =
      if is_above_90_percent (read_mem_stats w)
      then (record {
        name = "memory";
        status = HealthStatus.degraded;
        message = "High memory usage";
        duration = none;
        error = none;
      })
      else (record {
        name = "memory";
        status = HealthStatus.healthy;
        message = "Memory usage";
        duration = none;
        error = none;
      })

  -- func (h *HealthChecker) checkReadiness
  pub check_readiness :
      (ping_database ping_redis : Exec W (Unit {0})) (consumer : W → Lifecycle)
      (read_mem_stats : W → MemStats)
      → W
      → List (String × HealthCheck) × W
  unfolding check_database check_redis check_kafka check_memory
  check_readiness ping_database ping_redis consumer read_mem_stats w =
      let (database, w1) = check_database ping_database w in
      let (redis, w2) = check_redis ping_redis w1 in
      let (kafka, w3) = check_kafka consumer w2 in
      let memory = check_memory read_mem_stats w3 in
      (("database", database) ∷ ("redis", redis) ∷ ("kafka", kafka) ∷ ("memory", memory) ∷ [], w3)

-- What the checker is made of: NewHealthChecker.
pub record HealthChecker : Type 0 where
  pub start_time : ℕ
  pub service_name : String
  pub version : String

module _ {W : Type 0} (h : HealthChecker) (clock : W → ℕ) (print : ℕ → String)
    (encode_response : HealthResponse → Result String) where
  pub health_response : List (String × HealthCheck) → ℕ → HealthResponse
  health_response checks now = record {
    status = determine_overall_status (map (λ c. c.1) checks);
    timestamp = now;
    service = h.service_name;
    version = h.version;
    checks = checks;
    uptime = print (now - h.start_time);
  }

  answered : List (String × HealthCheck) × W → ResponseWriter → ResponseWriter × W
  unfolding set_content_type write_header write_json
  answered (checks, w) rw' =
      let response = health_response checks (clock w) in
      (
        write_json (encode_response response)
            (write_header (status_code response.status) (set_content_type "application/json" rw')),
        w,
      )

  -- func (h *HealthChecker) handleHealthCheck
  pub handle_health_check :
      (W → List (String × HealthCheck) × W) → ResponseWriter → W → ResponseWriter × W
  unfolding answered
  handle_health_check check rw' w = answered (check w) rw'

  -- func (h *HealthChecker) ReadinessHandler
  pub readiness_handler :
      (ping_database ping_redis : Exec W (Unit {0})) (consumer : W → Lifecycle)
      (read_mem_stats : W → MemStats)
      → ResponseWriter
      → W
      → ResponseWriter × W
  unfolding handle_health_check
  readiness_handler ping_database ping_redis consumer read_mem_stats =
      handle_health_check
        (check_readiness clock print ping_database ping_redis consumer read_mem_stats)
