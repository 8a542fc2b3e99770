-- ===== src/Tests/Systems.antt =====
-- A fan's request for a hold between two sweeps.
use ticketing_backend.Prelude.{◌+◌, ◌*◌, ◌≤◌, ◌≡◌, refl, arith, String, some, List, [], ◌∷◌, All}
use ticketing_backend.Domain.{Payload}
use ticketing_backend.Sql.{count_where, select_first}
use ticketing_backend.Store.Action.{Env}
use ticketing_backend.SeatInventory.Calls.{Call, run}
use ticketing_backend.SeatInventory.Machine.{IsConsistent, UnitState}
use ticketing_backend.SeatInventory.Backlog.{backlog}
use ticketing_backend.Http.Api.{ApiRequest, PurchaseRequest, RouterDeps}
use ticketing_backend.Worker.{WorkerConfig}
use ticketing_backend.System.{SystemEvent, system_run}
use ticketing_backend.System.Histories.{IsSent}
use ticketing_backend.System.Refinement.{system_run_refines}
use ticketing_backend.System.Drain.{sweeps, sweeps_drain}
use ticketing_backend.System.Tickets.{system_run_sold}
use ticketing_backend.Store.Inventory.{get_by_id}
use ticketing_backend.Tests.Data.{sold_unit, tables, units, units-IsKeyed, world_of, calm_env}
use ticketing_backend.Tests.Accounts.{jwt}
use ticketing_backend.Tests.Holds.{forgetful, config}
use ticketing_backend.Tests.Logins.{checks}
use ticketing_backend.Tests.Requests.{staff, admin_checks, headers, request}
use ticketing_backend.Tests.Webhooks.{externals}

abbrev deps : RouterDeps (Unit {0})
deps = record {
  externals = staff;
  webhook_externals = externals;
  checks = checks;
  admin_checks = admin_checks;
  client = forgetful;
  inventory = config;
  jwt = jwt;
  bootstrap_secret = "";
}

abbrev worker : WorkerConfig
worker = record {
  sweep_interval = 10;
  sweep_batch_size = 1;
  admission_interval = 5;
  admission_max_per_tick = 10;
  notification_interval = 5;
  notification_batch_size = 10;
}

abbrev body_of : Payload → String
body_of payload = payload.currency

abbrev traffic : List SystemEvent
traffic =
    SystemEvent.sweep
    ∷ SystemEvent.request (ApiRequest.buy (PurchaseRequest.hold "unit" (some request))) headers
    ∷ SystemEvent.notification
    ∷ SystemEvent.sweep
    ∷ []

system_run_refines_example :
    (calls : List Call) × All (IsSent calm_env) calls
    × ((system_run deps worker body_of traffic calm_env (tt, world_of tables)).1.db.inventory
        ≡ run calls units)
system_run_refines_example =
    system_run_refines deps worker body_of traffic calm_env tt (world_of tables)

-- The held unit's hold has expired.
abbrev evening : Env
evening = record calm_env { clock = λ n. 1001 + n }

units-AreConsistent : All IsConsistent units
units-AreConsistent = (
  (UnitState.available, (refl, refl, refl, refl)),
  ((UnitState.held 50 1000, (refl, refl, refl)), ((UnitState.sold, (refl, refl, refl, refl)), tt)),
)

one_expired : backlog 1001 units ≤ sweeps traffic * worker.sweep_batch_size
unfolding count_where sweeps
one_expired = omega arith

sweeps_drain_example :
    backlog 1001
      (system_run deps worker body_of traffic evening (tt, world_of tables)).1.db.inventory
    ≡ 0
sweeps_drain_example =
    sweeps_drain evening 1001 (λ n. omega arith) (λ n. refl) deps worker body_of traffic tt
      (world_of tables) units-IsKeyed units-AreConsistent one_expired

system_run_sold_example :
    get_by_id 1 9
      (system_run deps worker body_of traffic evening (tt, world_of tables)).1.db.inventory
    ≡ some sold_unit
unfolding get_by_id select_first
system_run_sold_example =
    system_run_sold deps worker body_of traffic evening tt (world_of tables) 1 9 refl refl
