-- ===== src/Worker.antt =====
-- cmd/worker/main.go: the three loops. A loop receives from its ticker, or from the context that
-- is cancelled; errors are only logged.
use ticketing_backend.Prelude.{ℕ, String, List, [], ◌∷◌}
use ticketing_backend.Domain.{Payload}
use ticketing_backend.Store.Action.{World, Env}
use ticketing_backend.Redis.{Client}
use ticketing_backend.Holding.{Config}
use ticketing_backend.Holding.Sweep.{sweep_expired_holds}
use ticketing_backend.Admission.{run_once}
use ticketing_backend.Outbox.{process_pending}

-- WorkerConfig of internal/config/config.go; the validator keeps the sizes positive. The intervals
-- are those of the tickers.
pub record WorkerConfig : Type 0 where
  pub sweep_interval : ℕ
  pub sweep_batch_size : ℕ
  pub admission_interval : ℕ
  pub admission_max_per_tick : ℕ
  pub notification_interval : ℕ
  pub notification_batch_size : ℕ

-- What a loop's select receives.
pub data Signal : Type 0 where
  tick : Signal
  done : Signal

-- The loop over the signals that arrive, from a body for each tick: `done` returns.
unfoldable pub run_loop : {W : Type 0} → (Env → W → W) → List Signal → Env → W → W
run_loop body [] env w = w
run_loop body (done ∷ signals) env w = w
run_loop body (tick ∷ signals) env w = run_loop body signals env (body env w)

unfoldable pub sweep_tick : WorkerConfig → Env → World → World
sweep_tick cfg env w = (sweep_expired_holds cfg.sweep_batch_size env w).1

unfoldable pub notification_tick : WorkerConfig → (Payload → String) → Env → World → World
notification_tick cfg body_of env w = (process_pending body_of cfg.notification_batch_size env w).1

unfoldable pub admission_tick :
    {S : Type 0} → Client S → Config → WorkerConfig → Env → S × World → S × World
admission_tick client inventory cfg env w =
    (run_once client inventory cfg.admission_max_per_tick env w).1

-- runSweepLoop
unfoldable pub run_sweep_loop : WorkerConfig → List Signal → Env → World → World
unfolding run_loop sweep_tick
run_sweep_loop cfg = run_loop (sweep_tick cfg)

-- runAdmissionLoop
unfoldable pub run_admission_loop :
    {S : Type 0} → Client S → Config → WorkerConfig → List Signal → Env → S × World → S × World
unfolding run_loop admission_tick
run_admission_loop client inventory cfg = run_loop (admission_tick client inventory cfg)

-- runNotificationLoop
unfoldable pub run_notification_loop :
    WorkerConfig → (Payload → String) → List Signal → Env → World → World
unfolding run_loop notification_tick
run_notification_loop cfg body_of = run_loop (notification_tick cfg body_of)
