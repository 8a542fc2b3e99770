-- ===== src/Process/Migrate.antt =====
-- cmd/migrate/main.go: the program that runs the migrations. golang-migrate is a parameter.
use ticketing_backend.Prelude.{
  ℕ, ◌-◌, ◌%◌, String, str_eq, str_append, ◌||◌, ◌==◌, Option, none, some, if◌then◌else◌,
}
use ticketing_backend.Domain.Amounts.{int64_mod, is_negative}
use ticketing_backend.Config.{Config}
use ticketing_backend.Config.Loading.{EnvReader, Validator, load}

-- The flags; an int is its 64 bits.
pub record Flags : Type 0 where
  pub direction : String
  pub steps : ℕ
  pub version : ℕ
  pub path : String

-- A call of the migrator.
pub data MigratorCall : Type 0 where
  up : MigratorCall
  steps : ℕ → MigratorCall
  down : MigratorCall
  force : ℕ → MigratorCall

-- What a call returns.
pub data Migrated : Type 0 where
  changed : Migrated
  no_change : Migrated
  failed : Migrated

-- migrate.New of a source and a database, and a call on what it makes.
pub record Migrator (M : Type 0) : Type 0 where
  pub new : String → String → Option M
  pub call : M → MigratorCall → Migrated

pub data MigrateError : Type 0 where
  load_config : MigrateError
  init_migrator : MigrateError
  unknown_direction : String → MigrateError
  run_migration : String → MigrateError

-- The switch over the direction.
unfoldable pub call_of : Flags → Option MigratorCall
call_of flags =
    if str_eq flags.direction "up"
    then some MigratorCall.up
    else if str_eq flags.direction "down"
    then if is_negative flags.steps || flags.steps == 0
      then some MigratorCall.down
      else some (MigratorCall.steps ((int64_mod - flags.steps) % int64_mod))
    else if str_eq flags.direction "force"
    then some (MigratorCall.force flags.version)
    else none

module _ {M : Type 0} (migrator : Migrator M) where
  abbrev called : Flags → Migrated → Option MigrateError
  called flags Migrated.changed = none
  called flags Migrated.no_change = none
  called flags Migrated.failed = some (MigrateError.run_migration flags.direction)

  abbrev switched : Flags → M → Option MigratorCall → Option MigrateError
  switched flags m none = some (MigrateError.unknown_direction flags.direction)
  switched flags m (some call) = called flags (migrator.call m call)

  abbrev connected : Flags → Option M → Option MigrateError
  unfolding call_of
  connected flags none = some MigrateError.init_migrator
  connected flags (some m) = switched flags m (call_of flags)

  abbrev configured : Flags → Option Config → Option MigrateError
  unfolding call_of
  configured flags none = some MigrateError.load_config
  configured flags (some cfg) =
      connected flags (migrator.new (str_append "file://" flags.path) cfg.postgres.dsn)

  -- run: `none` where it returns nil
  unfoldable pub run_migrate : EnvReader → Validator → Flags → Option MigrateError
  unfolding load call_of
  run_migrate env validator flags = configured flags (load env validator)
