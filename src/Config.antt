-- ===== src/Config.antt =====
-- internal/config/config.go: the configuration of the processes. An int is its 64 bits, a
-- time.Duration counts nanoseconds.
pub mod Loading
use ticketing_backend.Prelude.{ℕ, String, str_eq, Bool, List}
use ticketing_backend.Auth.{JwtConfig}
use ticketing_backend.Worker.{WorkerConfig}

pub record AppConfig : Type 0 where
  pub env : String
  pub name : String
  pub log_level : String

unfoldable pub is_production : AppConfig → Bool
is_production a = str_eq a.env "production"

pub record HttpConfig : Type 0 where
  pub port : ℕ
  pub read_timeout : ℕ
  pub write_timeout : ℕ
  pub idle_timeout : ℕ
  pub shutdown_timeout : ℕ

pub record PostgresConfig : Type 0 where
  pub dsn : String
  pub max_open_conns : ℕ
  pub max_idle_conns : ℕ
  pub conn_max_lifetime : ℕ

pub record RedisConfig : Type 0 where
  pub addr : String
  pub password : String
  pub db : ℕ
  pub pool_size : ℕ

pub record KafkaConfig : Type 0 where
  pub brokers : List String
  pub consumer_group : String

pub record StripeConfig : Type 0 where
  pub secret_key : String
  pub webhook_secret : String

pub record AdyenConfig : Type 0 where
  pub api_key : String
  pub merchant_account : String

pub record BootstrapConfig : Type 0 where
  pub secret : String

pub record EmailConfig : Type 0 where
  pub host : String
  pub port : String
  pub username : String
  pub password : String
  pub from : String

pub record Config : Type 0 where
  pub app : AppConfig
  pub http : HttpConfig
  pub postgres : PostgresConfig
  pub redis : RedisConfig
  pub kafka : KafkaConfig
  pub jwt : JwtConfig
  pub stripe : StripeConfig
  pub adyen : AdyenConfig
  pub bootstrap : BootstrapConfig
  pub worker : WorkerConfig
  pub email : EmailConfig
