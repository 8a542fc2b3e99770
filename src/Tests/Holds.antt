-- ===== src/Tests/Holds.antt =====
-- A hold through a small Redis server, and a sweep.
use ticketing_backend.Prelude.{◌≡◌, refl, true, none, some, []}
use ticketing_backend.Sql.{select_first}
use ticketing_backend.Store.Inventory
use ticketing_backend.Redis.{Client}
use ticketing_backend.Holding.{Config, hold_seat}
use ticketing_backend.Holding.HoldSeat.{Outcome, hold_seat_sound}
use ticketing_backend.Holding.Sweep.{sweep_expired_holds}
use ticketing_backend.Holding.Reclaim.{sweep_keeps}
use ticketing_backend.Tests.Data.{units-IsKeyed, sold_unit, tables, world_of, calm_env}

-- A server that keeps nothing: everyone is admitted, and every lock is free.
abbrev pub forgetful : Client (Unit {0})
forgetful = record {
  set_nx = λ now key value ttl s. (true, s);
  set = λ now key value ttl s. s;
  get = λ now key s. none;
  del = λ now key s. (0, s);
  exists = λ now key s. 1;
  incr = λ now key s. (1, s);
  expire = λ now key ttl s. s;
  zadd_nx = λ now key score member s. s;
  zrank = λ now key member s. none;
  zcard = λ now key s. 0;
  zpopmin = λ now key count s. ([], s);
  uuid_string = λ id. "id";
  uuid_parse = λ text. none;
}

abbrev pub config : Config
config = record {
  hold_duration = 300;
  lock_ttl = 3;
  admission_ttl = 600;
  hold_rate_limit = 10;
  hold_rate_limit_window = 60;
}

hold_seat_sound_example :
    Outcome 1 7 21 tables
      (hold_seat forgetful config 1 3 7 21 calm_env (tt, world_of tables)).0
      (hold_seat forgetful config 1 3 7 21 calm_env (tt, world_of tables)).1.1.db
hold_seat_sound_example =
    hold_seat_sound forgetful config 1 3 7 21 calm_env tt (world_of tables) units-IsKeyed

sweep_keeps_example :
    Inventory.get_by_id 1 9 (sweep_expired_holds 5 calm_env (world_of tables)).1.db.inventory
    ≡ some sold_unit
unfolding Inventory.get_by_id select_first
sweep_keeps_example =
    sweep_keeps 1 9 5 calm_env (world_of tables) {unit = sold_unit} units-IsKeyed refl refl
