-- ===== src/Tests/ConfigRuns.antt =====
-- A configuration, and an environment that gives it.
use edu_learn_notification_s.Prelude.{ℕ, ◌+◌, String, [], ◌∷◌, ◌≡◌, ◌↔◌, refl}
use edu_learn_notification_s.Errors.{ok}
use edu_learn_notification_s.Effect.{Exec}
use edu_learn_notification_s.Config.{Config, loaded, load_config, byte_length}
use edu_learn_notification_s.Config.Validity.{IsComplete, load_config_iff}

abbrev config : Config
config = record {
  service_name = "notification";
  service_version = "1.0.0";
  environment = "staging";
  grpc_port = "50051";
  ws_port = "8081";
  http_port = "";
  prometheus_port = "";
  database_dsn = "postgres://db";
  redis_addr = "redis:6379";
  template_base_path = "/templates";
  kafka_brokers = "kafka:9092" ∷ [];
  kafka_consumer_group = "notification-service";
  kafka_workers = 4;
  kafka_retries = 3;
  smtp_host = "smtp";
  smtp_port = 587;
  smtp_username = "ann";
  smtp_password = "pass";
  email_rate_limit = 60;
  email_burst_limit = 5;
  jwt_secret = "0123456789abcdef";
  log_level = "info";
  log_format = "json";
  log_file = "";
  otlp_endpoint = "";
}

abbrev getenv : String → ℕ → String
getenv key w = ""

abbrev setenv : String → String → ℕ → ℕ
setenv key value w = w + 1

abbrev process : Exec ℕ Config
process w = (ok config, w)

-- The length is of bytes: each of these eight letters has two.
byte_length_run : byte_length "ääääöööö" ≡ 16
unfolding byte_length
byte_length_run = refl

load_config_iff_example :
    ((load_config getenv setenv (λ w. w + 1) process 5).0 ≡ ok config)
    ↔ (((process (loaded getenv setenv (λ w. w + 1) process 5)).0 ≡ ok config) × IsComplete config)
load_config_iff_example = load_config_iff getenv setenv (λ w. w + 1) process config 5
