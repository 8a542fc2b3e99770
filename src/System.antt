-- ===== src/System.antt =====
-- The system as a whole: the API of cmd/api and the worker of cmd/worker on one database. What
-- they do in turn is a sequence of requests and ticks.
pub mod Histories
pub mod Statements
pub mod OrderStatements
pub mod Services
pub mod Checkouts
pub mod Exchanges
pub mod Pages
pub mod Orders
pub mod Gates
pub mod Ticks
pub mod Seats
pub mod Refinement
pub mod Drain
pub mod Tickets
use ticketing_backend.Prelude.{String, List, [], ◌∷◌}
use ticketing_backend.Domain.{Payload}
use ticketing_backend.Store.Action.{World, Env}
use ticketing_backend.Http.Gate.{Headers}
use ticketing_backend.Http.Api.{ApiRequest, RouterDeps, api}
use ticketing_backend.Worker.{WorkerConfig, sweep_tick, admission_tick, notification_tick}

pub data SystemEvent : Type 0 where
  request : ApiRequest → Headers → SystemEvent
  sweep : SystemEvent
  admission : SystemEvent
  notification : SystemEvent

module _ {S : Type 0} (deps : RouterDeps S) (cfg : WorkerConfig) (body_of : Payload → String) where
  unfoldable pub system_step : SystemEvent → Env → S × World → S × World
  unfolding api sweep_tick admission_tick notification_tick
  system_step (request r headers) env w = (api deps r headers env w).1
  system_step sweep env (s, w) = (s, sweep_tick cfg env w)
  system_step admission env w = admission_tick deps.client deps.inventory cfg env w
  system_step notification env (s, w) = (s, notification_tick cfg body_of env w)

  unfoldable pub system_run : List SystemEvent → Env → S × World → S × World
  unfolding system_step
  system_run [] env w = w
  system_run (event ∷ events) env w = system_run events env (system_step event env w)
