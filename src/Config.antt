-- ===== src/Config.antt =====
-- internal/infrastructure/config/config.go: the configuration of the process and its validation. The
-- libraries that read the environment are parameters: `process` is envconfig.Process, `load_file`
-- godotenv.Load. A text of the environment is read as UTF-8; an int below 0 is as 0.
pub mod Validity
use edu_learn_notification_s.Prelude.{
  ℕ, ◌+◌, Bool, true, false, not, ◌||◌, ◌&&◌, String, List, Char, code, length, ltb, eqb, ◌==◌,
  if◌then◌else◌,
}
use edu_learn_notification_s.Errors.{Result, ok, err, new}
use edu_learn_notification_s.Effect.{Exec, lift, context, pure, ◌>>=◌, ◌>>◌}

pub record Config : Type 0 where
  pub service_name : String
  pub service_version : String
  pub environment : String
  pub grpc_port : String
  pub ws_port : String
  pub http_port : String
  pub prometheus_port : String
  pub database_dsn : String
  pub redis_addr : String
  pub template_base_path : String
  pub kafka_brokers : List String
  pub kafka_consumer_group : String
  pub kafka_workers : ℕ
  pub kafka_retries : ℕ
  pub smtp_host : String
  pub smtp_port : ℕ
  pub smtp_username : String
  pub smtp_password : String
  pub email_rate_limit : ℕ
  pub email_burst_limit : ℕ
  pub jwt_secret : String
  pub log_level : String
  pub log_format : String
  pub log_file : String
  pub otlp_endpoint : String

-- The bytes of a character in UTF-8.
abbrev pub width : Char → ℕ
width c =
    if ltb (code c) 128
    then 1
    else if ltb (code c) 2048
    then 2
    else if ltb (code c) 65536
    then 3
    else 4

-- `len` of a text
unfoldable pub byte_length : String → ℕ
byte_length String.[] = 0
byte_length (String.◌∷◌ c s) = width c + byte_length s

-- `strings.Contains(s, ":")`
pub has_colon : String → Bool
has_colon String.[] = false
has_colon (String.◌∷◌ c s) = eqb (code c) 58 || has_colon s

-- func isValidEnv(env string) bool
pub is_valid_env : String → Bool
is_valid_env env =
    (env == "development") || (env == "staging") || (env == "production") || (env == "test")

-- func validate(config *Config) error
pub validate_environment : Config → Result (Unit {0})
validate_environment c =
    if not (is_valid_env c.environment)
    then err (new "invalid ENVIRONMENT value")
    else if ltb (byte_length c.jwt_secret) 16
    then err (new "JWT_ACCESS_TOKEN_SECRET must be at least 16 characters")
    else if eqb (length c.kafka_brokers) 0
    then err (new "KAFKA_BROKERS cannot be empty")
    else if not (has_colon c.redis_addr)
    then err (new "invalid REDIS_ADDR format")
    else ok tt

-- func validateConfig(config *Config) error
pub validate_config : Config → Result (Unit {0})
validate_config c =
    if c.service_name == ""
    then err (new "SERVICE_NAME is required")
    else if c.database_dsn == ""
    then err (new "DATABASE_DSN is required")
    else if c.redis_addr == ""
    then err (new "REDIS_ADDR is required")
    else if eqb (length c.kafka_brokers) 0
    then err (new "KAFKA_BROKERS is required")
    else if (c.jwt_secret == "") && (c.environment == "production")
    then err (new "JWT_SECRET must be set in production")
    else if (c.smtp_host == "") || (c.smtp_username == "") || (c.smtp_password == "")
    then err (new "SMTP configuration is incomplete")
    else ok tt

module _ {W : Type 0} (getenv : String → W → String) (setenv : String → String → W → W)
    (load_file : W → W) (process : Exec W Config) where
  -- func loadDotEnv()
  abbrev pub load_dot_env : W → W
  load_dot_env w = load_file (setenv "ENV_LOADED" "true" w)

  -- The environment with the file of a local run.
  abbrev pub loaded : W → W
  loaded w = if getenv "DOCKER_ENV" w == "true" then w else load_dot_env w

  -- Both validations of the configuration that was read.
  validated : Config → Exec W Config
  validated config = do
    lift (validate_environment config)
    context "config validation failed" (lift (validate_config config))
    pure config

  -- func LoadConfig() (*Config, error)
  pub load_config : Exec W Config
  unfolding validated
  load_config w =
      (do config ← context "failed to load env config" process; validated config) (loaded w)
