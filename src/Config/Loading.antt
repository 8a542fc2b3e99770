-- ===== src/Config/Loading.antt =====
-- Load of internal/config/config.go. The package env reads one variable of the environment for each
-- field, by the field's tags, and the package validator has the tests of the others; both are
-- parameters.
use ticketing_backend.Prelude.{
  ℕ, String, Bool, ◌&&◌, Option, none, some, List, [], ◌∷◌, if◌then◌else◌,
}
use ticketing_backend.Auth.{JwtConfig}
use ticketing_backend.Worker.{WorkerConfig}
use ticketing_backend.Config.{
  AppConfig, HttpConfig, PostgresConfig, RedisConfig, KafkaConfig, StripeConfig, AdyenConfig,
  BootstrapConfig, EmailConfig, Config,
}

-- The tags env and envDefault of a field.
pub data EnvTag : Type 0 where
  variable : String → EnvTag
  required : String → EnvTag
  default : String → String → EnvTag

-- What env makes of the environment for a field of each type, `none` for an error. The first
-- argument of `texts` is the separator.
pub record EnvReader : Type 0 where
  pub text : EnvTag → Option String
  pub int : EnvTag → Option ℕ
  pub duration : EnvTag → Option ℕ
  pub texts : String → EnvTag → Option (List String)

-- The tests of the validator's tags.
pub record Validator : Type 0 where
  pub is_present : String → Bool
  pub is_nonzero : ℕ → Bool
  pub is_one_of : List String → String → Bool
  pub has_min : ℕ → ℕ → Bool
  pub has_max : ℕ → ℕ → Bool
  pub has_min_length : ℕ → String → Bool

infixl 5 ◌>>=◌
abbrev ◌>>=◌ : {A B : Type 0} → Option A → (A → Option B) → Option B
none >>= f = none
(some a) >>= f = f a

module _ (env : EnvReader) where
  unfoldable read_app : Option AppConfig
  read_app = do
    mode ← env.text (EnvTag.default "APP_ENV" "development")
    name ← env.text (EnvTag.default "APP_NAME" "ticketing-backend")
    log_level ← env.text (EnvTag.default "LOG_LEVEL" "info")
    some (record { env = mode; name = name; log_level = log_level })

  unfoldable read_http : Option HttpConfig
  read_http = do
    port ← env.int (EnvTag.default "HTTP_PORT" "8080")
    read_timeout ← env.duration (EnvTag.default "HTTP_READ_TIMEOUT" "10s")
    write_timeout ← env.duration (EnvTag.default "HTTP_WRITE_TIMEOUT" "15s")
    idle_timeout ← env.duration (EnvTag.default "HTTP_IDLE_TIMEOUT" "60s")
    shutdown_timeout ← env.duration (EnvTag.default "HTTP_SHUTDOWN_TIMEOUT" "15s")
    some (record {
      port = port;
      read_timeout = read_timeout;
      write_timeout = write_timeout;
      idle_timeout = idle_timeout;
      shutdown_timeout = shutdown_timeout;
    })

  unfoldable read_postgres : Option PostgresConfig
  read_postgres = do
    dsn ← env.text (EnvTag.required "DATABASE_URL")
    max_open_conns ← env.int (EnvTag.default "DB_MAX_OPEN_CONNS" "25")
    max_idle_conns ← env.int (EnvTag.default "DB_MAX_IDLE_CONNS" "10")
    conn_max_lifetime ← env.duration (EnvTag.default "DB_CONN_MAX_LIFETIME" "30m")
    some (record {
      dsn = dsn;
      max_open_conns = max_open_conns;
      max_idle_conns = max_idle_conns;
      conn_max_lifetime = conn_max_lifetime;
    })

  unfoldable read_redis : Option RedisConfig
  read_redis = do
    addr ← env.text (EnvTag.default "REDIS_ADDR" "localhost:6379")
    password ← env.text (EnvTag.variable "REDIS_PASSWORD")
    db ← env.int (EnvTag.default "REDIS_DB" "0")
    pool_size ← env.int (EnvTag.default "REDIS_POOL_SIZE" "50")
    some (record { addr = addr; password = password; db = db; pool_size = pool_size })

  unfoldable read_kafka : Option KafkaConfig
  read_kafka = do
    brokers ← env.texts "," (EnvTag.default "KAFKA_BROKERS" "localhost:9092")
    consumer_group ← env.text (EnvTag.default "KAFKA_CONSUMER_GROUP" "ticketing-worker")
    some (record { brokers = brokers; consumer_group = consumer_group })

  unfoldable read_jwt : Option JwtConfig
  read_jwt = do
    secret ← env.text (EnvTag.required "JWT_SECRET")
    refresh_secret ← env.text (EnvTag.required "JWT_REFRESH_SECRET")
    access_ttl ← env.duration (EnvTag.default "JWT_ACCESS_TTL" "15m")
    refresh_ttl ← env.duration (EnvTag.default "JWT_REFRESH_TTL" "720h")
    some (record {
      secret = secret;
      refresh_secret = refresh_secret;
      access_ttl = access_ttl;
      refresh_ttl = refresh_ttl;
    })

  unfoldable read_stripe : Option StripeConfig
  read_stripe = do
    secret_key ← env.text (EnvTag.variable "STRIPE_SECRET_KEY")
    webhook_secret ← env.text (EnvTag.variable "STRIPE_WEBHOOK_SECRET")
    some (record { secret_key = secret_key; webhook_secret = webhook_secret })

  unfoldable read_adyen : Option AdyenConfig
  read_adyen = do
    api_key ← env.text (EnvTag.variable "ADYEN_API_KEY")
    merchant_account ← env.text (EnvTag.variable "ADYEN_MERCHANT_ACCOUNT")
    some (record { api_key = api_key; merchant_account = merchant_account })

  unfoldable read_bootstrap : Option BootstrapConfig
  read_bootstrap = do
    secret ← env.text (EnvTag.variable "ADMIN_BOOTSTRAP_SECRET")
    some (record { secret = secret })

  unfoldable read_worker : Option WorkerConfig
  read_worker = do
    sweep_interval ← env.duration (EnvTag.default "WORKER_SWEEP_INTERVAL" "10s")
    sweep_batch_size ← env.int (EnvTag.default "WORKER_SWEEP_BATCH_SIZE" "500")
    admission_interval ← env.duration (EnvTag.default "WORKER_ADMISSION_INTERVAL" "5s")
    admission_max_per_tick ← env.int (EnvTag.default "WORKER_ADMISSION_MAX_PER_TICK" "200")
    notification_interval ← env.duration (EnvTag.default "WORKER_NOTIFICATION_INTERVAL" "5s")
    notification_batch_size ← env.int (EnvTag.default "WORKER_NOTIFICATION_BATCH_SIZE" "100")
    some (record {
      sweep_interval = sweep_interval;
      sweep_batch_size = sweep_batch_size;
      admission_interval = admission_interval;
      admission_max_per_tick = admission_max_per_tick;
      notification_interval = notification_interval;
      notification_batch_size = notification_batch_size;
    })

  unfoldable read_email : Option EmailConfig
  read_email = do
    host ← env.text (EnvTag.variable "SMTP_HOST")
    port ← env.text (EnvTag.default "SMTP_PORT" "587")
    username ← env.text (EnvTag.variable "SMTP_USERNAME")
    password ← env.text (EnvTag.variable "SMTP_PASSWORD")
    sender ← env.text (EnvTag.default "SMTP_FROM" "noreply@ticketing.example")
    some (record {
      host = host;
      port = port;
      username = username;
      password = password;
      from = sender;
    })

  -- env.Parse
  unfoldable pub parse : Option Config
  unfolding read_app read_http read_postgres read_redis read_kafka read_jwt read_stripe read_adyen
      read_bootstrap read_worker read_email
  parse = do
    app ← read_app
    http ← read_http
    postgres ← read_postgres
    redis ← read_redis
    kafka ← read_kafka
    jwt ← read_jwt
    stripe ← read_stripe
    adyen ← read_adyen
    bootstrap ← read_bootstrap
    worker ← read_worker
    email ← read_email
    some (record {
      app = app;
      http = http;
      postgres = postgres;
      redis = redis;
      kafka = kafka;
      jwt = jwt;
      stripe = stripe;
      adyen = adyen;
      bootstrap = bootstrap;
      worker = worker;
      email = email;
    })

module _ (validator : Validator) where
  -- The tags of the fields that have any.
  unfoldable pub is_valid : Config → Bool
  is_valid cfg =
      validator.is_one_of ("development" ∷ "staging" ∷ "production" ∷ []) cfg.app.env
      && validator.is_one_of ("debug" ∷ "info" ∷ "warn" ∷ "error" ∷ []) cfg.app.log_level
      && validator.is_nonzero cfg.http.port
      && validator.has_min 1 cfg.http.port
      && validator.has_max 65535 cfg.http.port
      && validator.is_present cfg.postgres.dsn
      && validator.has_min 1 cfg.postgres.max_open_conns
      && validator.has_min 0 cfg.postgres.max_idle_conns
      && validator.is_present cfg.redis.addr
      && validator.has_min 1 cfg.redis.pool_size
      && validator.is_present cfg.jwt.secret
      && validator.has_min_length 16 cfg.jwt.secret
      && validator.is_present cfg.jwt.refresh_secret
      && validator.has_min_length 16 cfg.jwt.refresh_secret
      && validator.has_min 1 cfg.worker.sweep_batch_size
      && validator.has_min 1 cfg.worker.admission_max_per_tick
      && validator.has_min 1 cfg.worker.notification_batch_size

-- Load, after the optional .env file. `none` is an error of either step.
unfoldable pub load : EnvReader → Validator → Option Config
unfolding parse is_valid
load env validator = do cfg ← parse env; if is_valid validator cfg then some cfg else none
