-- ===== src/Health/Status.antt =====
-- What the statuses of the checks make of the answer.
use edu_learn_notification_s.Prelude.{
  ℕ, Bool, true, false, ◌||◌, ◌&&◌, not, String, List, [], ◌∷◌, Option, none, some, ◌≡◌, inl, inr,
  refl, ◌∙◌, ap, any, arith, if◌then◌else◌, Bool-cases,
}
use edu_learn_notification_s.Errors.{Result, ok, err}
use edu_learn_notification_s.Effect.{Exec}
use edu_learn_notification_s.Kafka.Consumer.Lifecycle.{Lifecycle, health_check}
use edu_learn_notification_s.Health.{
  HealthStatus, healthy, unhealthy, degraded, HealthCheck, determine_overall_status, seen, worst,
  ResponseWriter, HealthChecker, HealthResponse, MemStats, readiness_handler, handle_health_check,
  answered, check_readiness, check_database, check_redis, check_kafka, check_memory, timed,
  reported, probed, health_response, write_json, write_header, set_content_type, status_code,
}

abbrev pub is_unhealthy : HealthCheck → Bool
is_unhealthy c = elim c.status [ unhealthy ↦ true | degraded ↦ false | healthy ↦ false ]

abbrev pub is_degraded : HealthCheck → Bool
is_degraded c = elim c.status [ unhealthy ↦ false | degraded ↦ true | healthy ↦ false ]

-- The worst of the statuses, whatever their order.
abbrev pub worst_of : List HealthCheck → HealthStatus
worst_of checks =
    if any is_unhealthy checks
    then HealthStatus.unhealthy
    else if any is_degraded checks
    then HealthStatus.degraded
    else HealthStatus.healthy

seen-any :
    (checks : List HealthCheck) (u d : Bool)
    → seen checks (u, d) ≡ (u || any is_unhealthy checks, d || any is_degraded checks)
unfolding seen
seen-any [] u d = ground arith
seen-any (c ∷ cs) u d = ground (arith, seen-any cs u d, seen-any cs true d, seen-any cs u true)

-- The loop over the checks finds the worst status, in any order of them: one unhealthy check makes the
-- service unhealthy, and otherwise one degraded check makes it degraded.
pub determine_overall_status-worst_of :
    (checks : List HealthCheck) → determine_overall_status checks ≡ worst_of checks
unfolding determine_overall_status worst
determine_overall_status-worst_of checks = rw (seen-any checks false false) (ground arith)

-- An answer whose header is not out gets the code of the status, whether the JSON is made or not.
write_json-status :
    (r : Result String) (code : ℕ) (text : String) (rw' : ResponseWriter)
    → rw'.status ≡ none
    → (write_json r (write_header code (set_content_type text rw'))).status ≡ some code
unfolding write_json write_header set_content_type
write_json-status (ok body) code text rw' open' = rw open' refl
write_json-status (err e) code text rw' open' = rw open' refl

succeeded : Result (Unit {0}) → Bool
succeeded (ok u) = true
succeeded (err e) = false

code-four :
    (a b c d : HealthCheck) (r s t : Result (Unit {0}))
    → is_unhealthy a ≡ not (succeeded r)
    → is_unhealthy b ≡ not (succeeded s)
    → is_unhealthy c ≡ not (succeeded t)
    → is_unhealthy d ≡ false
    → status_code (determine_overall_status (a ∷ b ∷ c ∷ d ∷ []))
      ≡ (if succeeded r && succeeded s && succeeded t then 200 else 503)
unfolding status_code
code-four a b c d r s t ea eb ec ed =
    rw (determine_overall_status-worst_of (a ∷ b ∷ c ∷ d ∷ [])) (ground arith)

probed-is_unhealthy :
    (name good bad duration : String) (r : Result (Unit {0}))
    → is_unhealthy (probed name good bad duration r) ≡ not (succeeded r)
unfolding probed succeeded
probed-is_unhealthy name good bad duration (ok u) = refl
probed-is_unhealthy name good bad duration (err e) = refl

module _ {W : Type 0} (clock : W → ℕ) (print : ℕ → String) where
  check_memory-is_unhealthy :
      (read_mem_stats : W → MemStats) (w : W)
      → is_unhealthy (check_memory clock print read_mem_stats w) ≡ false
  unfolding check_memory
  check_memory-is_unhealthy read_mem_stats w = ground arith

code-by_cases :
    (r s : Result (Unit {0})) (c : Lifecycle) (sent : Option ℕ)
    → sent
      ≡ some
          (if succeeded r && succeeded s && succeeded (health_check true none c) then 200 else 503)
    → ((r ≡ ok tt) × (s ≡ ok tt) × (c.closed ≡ false) → sent ≡ some 200)
      × (¬ ((r ≡ ok tt) × (s ≡ ok tt) × (c.closed ≡ false)) → sent ≡ some 503)
unfolding succeeded health_check
code-by_cases (err e) s c sent h = (λ (er, es, ec). ground arith, λ n. h)
code-by_cases (ok u) (err e) c sent h = (λ (er, es, ec). ground arith, λ n. h)
code-by_cases (ok u) (ok v) c sent h = elim (Bool-cases c.closed) [
  | inl e ↦ (λ (er, es, ec). ground arith, λ n. ground arith)
  | inr e ↦ (λ ready. ground arith, λ n. absurd (n (refl, refl, e)))
]

module _ {W : Type 0} (h : HealthChecker) (clock : W → ℕ) (print : ℕ → String)
    (encode_response : HealthResponse → Result String)
    (ping_database ping_redis : Exec W (Unit {0})) (consumer : W → Lifecycle)
    (read_mem_stats : W → MemStats) where
  -- What the three connections answer, one after the other.
  abbrev pub IsReady : W → Type 0
  IsReady w =
      ((ping_database w).0 ≡ ok tt)
      × ((ping_redis (ping_database w).1).0 ≡ ok tt)
      × ((consumer (ping_redis (ping_database w).1).1).closed ≡ false)

  abbrev pub answer : ResponseWriter → W → ResponseWriter
  answer rw' w =
      (readiness_handler h clock print encode_response ping_database ping_redis consumer
        read_mem_stats rw' w).0

  code-ready :
      (rw' : ResponseWriter) (w : W)
      → rw'.status ≡ none
      → (answer rw' w).status
        ≡ some (
            if succeeded (ping_database w).0
              && succeeded (ping_redis (ping_database w).1).0
              && succeeded (health_check true none (consumer (ping_redis (ping_database w).1).1))
            then 200
            else 503)
  unfolding readiness_handler handle_health_check answered check_readiness check_database
      check_redis check_kafka timed reported health_response
  code-ready rw' w open' =
      let w1 = (ping_database w).1 in
      let w2 = (ping_redis w1).1 in
      write_json-status _ _ _ rw' open'
      ∙ ap some (
          code-four _ _ _ _ (ping_database w).0 (ping_redis w1).0
            (health_check true none (consumer w2)) (probed-is_unhealthy _ _ _ _ _)
            (probed-is_unhealthy _ _ _ _ _) (probed-is_unhealthy _ _ _ _ _)
            (check_memory-is_unhealthy clock print read_mem_stats w2))

  -- An answer to a readiness request has the code 200 when the database and Redis answer, one after the
  -- other, and the Kafka consumer is not closed; when one of them fails it has 503. The memory and a
  -- failing encoder do not change the code.
  pub readiness_handler-status :
      (rw' : ResponseWriter) (w : W)
      → rw'.status ≡ none
      → (IsReady w → (answer rw' w).status ≡ some 200)
        × (¬ IsReady w → (answer rw' w).status ≡ some 503)
  readiness_handler-status rw' w open' =
      let w2 = (ping_redis (ping_database w).1).1 in
      code-by_cases (ping_database w).0 (ping_redis (ping_database w).1).0 (consumer w2) _
        (code-ready rw' w open')
