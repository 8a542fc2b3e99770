-- ===== src/Process/Startup.antt =====
-- The start and the end of cmd/api and cmd/worker, with the connections of
-- internal/platform/database and internal/platform/redis. The drivers are parameters.
use ticketing_backend.Prelude.{
  ℕ, ◌*◌, String, Bool, Option, none, some, ◌⊎◌, inl, inr, if◌then◌else◌,
}
use ticketing_backend.Config.{PostgresConfig, RedisConfig, Config}
use ticketing_backend.Config.Loading.{EnvReader, Validator, load}
use ticketing_backend.Process.{second, minute}

-- The settings of pgxpool.Config, over what the DSN says.
pub record PoolSettings (D : Type 0) : Type 0 where
  pub parsed : D
  pub max_conns : ℕ
  pub min_conns : ℕ
  pub max_conn_lifetime : ℕ
  pub max_conn_idle_time : ℕ
  pub health_check_period : ℕ

-- redis.Options
pub record ClientOptions : Type 0 where
  pub addr : String
  pub password : String
  pub db : ℕ
  pub pool_size : ℕ
  pub dial_timeout : ℕ
  pub read_timeout : ℕ
  pub write_timeout : ℕ

-- pgx, go-redis and the logger: what each call gives, and whether the pings are answered.
pub record Drivers (D P C : Type 0) : Type 0 where
  pub parse_config : String → Option D
  pub new_with_config : PoolSettings D → Option P
  pub ping_pool : P → Bool
  pub new_client : ClientOptions → C
  pub ping_client : C → Bool
  pub new_logger : String → String → Bool

-- The errors of `run` in the two programs.
pub data RunError : Type 0 where
  load_config : RunError
  build_logger : RunError
  connect_postgres : RunError
  connect_redis : RunError
  http_server : RunError
  graceful_shutdown : RunError

-- How serving ends: ListenAndServe returns, true where it fails with another error than
-- ErrServerClosed, or a signal comes and Shutdown says whether it fails.
pub data Ending : Type 0 where
  returned : Bool → Ending
  signalled : Bool → Ending

module _ {D P C : Type 0} (drivers : Drivers D P C) where
  abbrev settings : PostgresConfig → D → PoolSettings D
  settings cfg parsed = record {
    parsed = parsed;
    max_conns = cfg.max_open_conns;
    min_conns = cfg.max_idle_conns;
    max_conn_lifetime = cfg.conn_max_lifetime;
    max_conn_idle_time = 5 * minute;
    health_check_period = 30 * second;
  }

  -- NewPool
  unfoldable pub new_pool : PostgresConfig → Option P
  new_pool cfg = elim (drivers.parse_config cfg.dsn) [
    | none ↦ none
    | some parsed ↦ elim (drivers.new_with_config (settings cfg parsed)) [
      | none ↦ none
      | some pool ↦ if drivers.ping_pool pool then some pool else none
    ]
  ]

  -- NewClient
  unfoldable pub new_client : RedisConfig → Option C
  new_client cfg =
      let client = drivers.new_client (record {
        addr = cfg.addr;
        password = cfg.password;
        db = cfg.db;
        pool_size = cfg.pool_size;
        dial_timeout = 5 * second;
        read_timeout = 2 * second;
        write_timeout = 2 * second;
      }) in
      if drivers.ping_client client then some client else none

  abbrev with_redis : Config → P → Option C → RunError ⊎ (Config × P × C)
  with_redis cfg pool none = inl RunError.connect_redis
  with_redis cfg pool (some client) = inr (cfg, pool, client)

  abbrev with_pool : Config → Option P → RunError ⊎ (Config × P × C)
  unfolding new_client
  with_pool cfg none = inl RunError.connect_postgres
  with_pool cfg (some pool) = with_redis cfg pool (new_client cfg.redis)

  abbrev with_config : Option Config → RunError ⊎ (Config × P × C)
  unfolding new_pool
  with_config none = inl RunError.load_config
  with_config (some cfg) =
      if drivers.new_logger cfg.app.env cfg.app.log_level
      then with_pool cfg (new_pool cfg.postgres)
      else inl RunError.build_logger

  -- The first half of `run` in both programs: the configuration and the two connections.
  unfoldable pub start : EnvReader → Validator → RunError ⊎ (Config × P × C)
  unfolding load new_pool new_client
  start env validator = with_config (load env validator)

-- The end of `run` in cmd/api
unfoldable pub finish : Ending → Option RunError
finish (Ending.returned failed) = if failed then some RunError.http_server else none
finish (Ending.signalled failed) = if failed then some RunError.graceful_shutdown else none
