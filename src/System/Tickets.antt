-- ===== src/System/Tickets.antt =====
-- What becomes of sold units while the system runs.
use ticketing_backend.Prelude.{
  ℕ, ◌≡◌, refl, ◌∙◌, ap, arith, false, ◌&&◌, ◌==◌, Bool-cases, Option-cases, inl, inr, String, some,
  List, [], ◌∷◌, All,
}
use ticketing_backend.Domain.{InventoryStatus, EventSeatInventory, Payload}
use ticketing_backend.Store.Inventory.{Table, get_by_id, insert_batch}
use ticketing_backend.Store.Action.{World, Env}
use ticketing_backend.SeatInventory.Keys.{insert_batch_keeps}
use ticketing_backend.SeatInventory.Calls.{
  UnitCall, Call, on, insert, step, run, unit_guard, unit_step_same, unit_step_others,
}
use ticketing_backend.SeatInventory.Oversell.{at_same}
use ticketing_backend.Http.Api.{RouterDeps}
use ticketing_backend.Worker.{WorkerConfig}
use ticketing_backend.System.{SystemEvent, system_run}
use ticketing_backend.System.Histories.{IsSent}
use ticketing_backend.System.Refinement.{system_run_refines}

module _ (env : Env) (t i : ℕ) (unit : EventSeatInventory)
    (sold : unit.status ≡ InventoryStatus.sold) where
  unit_guard_sold : (c : UnitCall) → IsSent env (on t i c) → unit_guard c unit ≡ false
  unit_guard_sold (UnitCall.hold k u x) sent = ground arith
  unit_guard_sold (UnitCall.release k) sent = ground arith
  unit_guard_sold (UnitCall.confirm_sale k) sent = ground arith
  unit_guard_sold UnitCall.void sent = absurd sent

  abbrev Keeps : Call → Table → Type 0
  Keeps c rows = IsSent env c → get_by_id t i (step c rows).1 ≡ some unit

  on_same-Keeps :
      (c : UnitCall) (rows : Table) → get_by_id t i rows ≡ some unit → Keeps (on t i c) rows
  unfolding step
  on_same-Keeps c rows found sent =
      rw (unit_step_same t i c rows, found, unit_guard_sold c sent) refl

  step-Keeps : (c : Call) (rows : Table) → get_by_id t i rows ≡ some unit → Keeps c rows
  unfolding step
  step-Keeps (on t' i' c) rows found sent = elim (Bool-cases (i' == i && t' == t)) [
    | inl same ↦
        at_same (λ t' i'. Keeps (on t' i' c) rows) t i t' i' same (on_same-Keeps c rows found) sent
    | inr other ↦ unit_step_others t' i' t i c rows (ground arith) ∙ found
  ]
  step-Keeps (insert news) rows found sent = elim (Option-cases (insert_batch news rows)) [
    | inl refused ↦ rw refused found
    | inr (rows', taken) ↦ rw taken (insert_batch_keeps news t i rows taken found)
  ]

  run-Keeps :
      (cs : List Call) (rows : Table)
      → get_by_id t i rows ≡ some unit
      → All (IsSent env) cs
      → get_by_id t i (run cs rows) ≡ some unit
  unfolding run
  run-Keeps [] rows found sent = found
  run-Keeps (c ∷ cs) rows found sent =
      run-Keeps cs (step c rows).1 (step-Keeps c rows found sent.0) sent.1

-- A unit that is sold stays sold: its row is the same after every run of the system, whatever
-- requests the API serves, whatever ticks the worker runs and whatever fails.
pub system_run_sold :
    {S : Type 0} (deps : RouterDeps S) (cfg : WorkerConfig) (body_of : Payload → String)
    (events : List SystemEvent) (env : Env) (s : S) (w : World) (t i : ℕ)
    {unit : EventSeatInventory}
    → get_by_id t i w.db.inventory ≡ some unit
    → unit.status ≡ InventoryStatus.sold
    → get_by_id t i (system_run deps cfg body_of events env (s, w)).1.db.inventory ≡ some unit
system_run_sold deps cfg body_of events env s w t i {unit = unit} found sold =
    let (calls, sent, history) = system_run_refines deps cfg body_of events env s w in
    ap (get_by_id t i) history ∙ run-Keeps env t i unit sold calls w.db.inventory found sent
