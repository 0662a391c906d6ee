-- ===== src/Config/Validity.antt =====
-- Which configurations are accepted.
use edu_learn_notification_s.Prelude.{
  ◌≤◌, true, false, String, List, [], ◌∷◌, ◌≡◌, ◌≢◌, ◌↔◌, ◌⊎◌, inl, inr, refl, ap, subst, arith,
  length, eqb, eq_iff,
}
use edu_learn_notification_s.Errors.{ok, Result-cases}
use edu_learn_notification_s.Effect.{Exec}
use edu_learn_notification_s.Config.{
  Config, byte_length, has_colon, is_valid_env, validate_environment, validate_config, load_config,
  loaded, validated,
}

-- A configuration that the service can start with.
pub record IsComplete (c : Config) : Type 0 where
  pub environment :
      (c.environment ≡ "development")
      ⊎ ((c.environment ≡ "staging") ⊎ ((c.environment ≡ "production") ⊎ (c.environment ≡ "test")))
  pub jwt_secret : 16 ≤ byte_length c.jwt_secret
  pub kafka_brokers : c.kafka_brokers ≢ []
  pub redis_addr : has_colon c.redis_addr ≡ true
  pub service_name : c.service_name ≢ ""
  pub database_dsn : c.database_dsn ≢ ""
  pub smtp_host : c.smtp_host ≢ ""
  pub smtp_username : c.smtp_username ≢ ""
  pub smtp_password : c.smtp_password ≢ ""

is_valid_env_iff :
    (env : String)
    → (is_valid_env env ≡ true)
      ↔ ((env ≡ "development") ⊎ ((env ≡ "staging") ⊎ ((env ≡ "production") ⊎ (env ≡ "test"))))
unfolding is_valid_env
is_valid_env_iff env = ground (
  arith,
  eq_iff env "development",
  eq_iff env "staging",
  eq_iff env "production",
  eq_iff env "test",
)

length-zero : {A : Type 0} (xs : List A) → (eqb (length xs) 0 ≡ true) ↔ (xs ≡ [])
length-zero [] = (λ h. refl, λ h. refl)
length-zero (x ∷ xs) = (λ h. ground arith, λ h. ground arith)

-- validate accepts.
abbrev IsSafe : Config → Type 0
IsSafe c =
    (is_valid_env c.environment ≡ true)
    × (16 ≤ byte_length c.jwt_secret)
    × (c.kafka_brokers ≢ [])
    × (has_colon c.redis_addr ≡ true)

validate_environment_iff : (c : Config) → (validate_environment c ≡ ok tt) ↔ IsSafe c
unfolding validate_environment
validate_environment_iff c = ground (arith, length-zero c.kafka_brokers)

has_colon-ne-nil : (s : String) → has_colon s ≡ true → s ≢ ""
unfolding has_colon
has_colon-ne-nil s h e = let none : has_colon s ≡ false = ap has_colon e in cc

byte_length-ne-nil : (s : String) → 16 ≤ byte_length s → s ≢ ""
unfolding byte_length
byte_length-ne-nil s h e = let none : byte_length s ≡ 0 = ap byte_length e in omega arith

-- The checks of validateConfig that can still fail behind validate.
abbrev IsNamed : Config → Type 0
IsNamed c =
    (c.service_name ≢ "")
    × (c.database_dsn ≢ "")
    × (c.smtp_host ≢ "")
    × (c.smtp_username ≢ "")
    × (c.smtp_password ≢ "")

validate_config_iff : (c : Config) → IsSafe c → (validate_config c ≡ ok tt) ↔ IsNamed c
unfolding validate_config
validate_config_iff c (env, secret, brokers, addr) = ground (
  arith,
  length-zero c.kafka_brokers,
  has_colon-ne-nil c.redis_addr,
  byte_length-ne-nil c.jwt_secret,
  eq_iff c.service_name "",
  eq_iff c.database_dsn "",
  eq_iff c.redis_addr "",
  eq_iff c.jwt_secret "",
  eq_iff c.smtp_host "",
  eq_iff c.smtp_username "",
  eq_iff c.smtp_password "",
)

IsComplete-iff : (c : Config) → (IsSafe c × IsNamed c) ↔ IsComplete c
IsComplete-iff c = (
  λ ((env, secret, brokers, addr), (service, dsn, host, user, password)). record {
    environment = (is_valid_env_iff c.environment).0 env;
    jwt_secret = secret;
    kafka_brokers = brokers;
    redis_addr = addr;
    service_name = service;
    database_dsn = dsn;
    smtp_host = host;
    smtp_username = user;
    smtp_password = password;
  },
  λ g. (
    ((is_valid_env_iff c.environment).1 g.environment, g.jwt_secret, g.kafka_brokers, g.redis_addr),
    (g.service_name, g.database_dsn, g.smtp_host, g.smtp_username, g.smtp_password),
  ),
)

validations_iff :
    (c : Config) → ((validate_environment c ≡ ok tt) × (validate_config c ≡ ok tt)) ↔ IsComplete c
validations_iff c =
    let (safe, back) = validate_environment_iff c in
    let (complete, parts) = IsComplete-iff c in
    (
      λ (e, f). complete (safe e, (validate_config_iff c (safe e)).0 f),
      λ g. (back (parts g).0, (validate_config_iff c (parts g).0).1 (parts g).1),
    )

module _ {W : Type 0} (getenv : String → W → String) (setenv : String → String → W → W)
    (load_file : W → W) (process : Exec W Config) where
  validated_iff :
      (d c : Config) (w : W)
      → ((validated getenv setenv load_file process d w).0 ≡ ok c) ↔ ((d ≡ c) × IsComplete c)
  unfolding validated
  validated_iff d c w = elim (Result-cases (validate_environment d)) [
    | inr (e, eq) ↦ rw eq (
      λ h. ground arith,
      λ (same, g).
          let good = ((validations_iff c).1 g).0 in
          let moved = ap validate_environment same in ground arith,
    )
    | inl (u, eq) ↦ elim (Result-cases (validate_config d)) [
      | inr (e, bad) ↦
          rw (eq, bad)
            (
              λ h. ground arith,
              λ (same, g).
                  let good = ((validations_iff c).1 g).1 in
                  let moved = ap validate_config same in ground arith,
            )
      | inl (v, good) ↦
          rw (eq, good)
            (
              λ h.
                  let same : d ≡ c = ground arith in
                  (same, subst IsComplete same ((validations_iff d).0 (eq, good))),
              λ (same, g). ap ok same,
            )
    ]
  ]

  -- LoadConfig returns a configuration exactly when the environment gives it, after the file of a local
  -- run was loaded, and it is complete: one of the four environments, a secret of 16 bytes or more, a
  -- Kafka broker, an address of Redis with a colon, and a name of the service, a database and the three
  -- SMTP values that are not empty.
  pub load_config_iff :
      (c : Config) (w : W)
      → ((load_config getenv setenv load_file process w).0 ≡ ok c)
        ↔ (((process (loaded getenv setenv load_file process w)).0 ≡ ok c) × IsComplete c)
  unfolding load_config
  load_config_iff c w = elim (Result-cases (process (loaded getenv setenv load_file process w)).0) [
    | inr (e, eq) ↦ rw eq (ground arith)
    | inl (d, eq) ↦ rw eq (
      λ h. let (same, g) = (validated_iff d c _).0 h in (ap ok same, g),
      λ (same, g). (validated_iff d c _).1 (ground arith, g),
    )
  ]
