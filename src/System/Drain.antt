-- ===== src/System/Drain.antt =====
-- The sweep against the traffic of the API.
use ticketing_backend.Prelude.{
  ℕ, suc, ◌+◌, ◌*◌, ◌≤◌, ◌≡◌, sym, subst, arith, false, List, [], ◌∷◌, min, All,
}
use ticketing_backend.Domain.{Payload}
use ticketing_backend.Prelude.{String}
use ticketing_backend.Store.Inventory.{Table}
use ticketing_backend.Store.Action.{World, Env}
use ticketing_backend.SeatInventory.Keys.{IsKeyed}
use ticketing_backend.SeatInventory.Calls.{Call, UnitCall, on, insert, run-IsKeyed}
use ticketing_backend.SeatInventory.Machine.{IsConsistent, run-IsConsistent}
use ticketing_backend.SeatInventory.Backlog.{backlog, IsLate, run-backlog}
use ticketing_backend.Holding.Backlog.{sweep-backlog}
use ticketing_backend.Http.Api.{RouterDeps}
use ticketing_backend.Worker.{WorkerConfig, sweep_tick}
use ticketing_backend.System.{SystemEvent, system_step, system_run}
use ticketing_backend.System.Histories.{Follows, IsSent}
use ticketing_backend.System.Refinement.{step-Follows}

-- How often the worker sweeps.
unfoldable pub sweeps : List SystemEvent → ℕ
sweeps [] = 0
sweeps (SystemEvent.sweep ∷ events) = suc (sweeps events)
sweeps (SystemEvent.request r headers ∷ events) = sweeps events
sweeps (SystemEvent.admission ∷ events) = sweeps events
sweeps (SystemEvent.notification ∷ events) = sweeps events

module _ (env : Env) (since : ℕ) (later : (n : ℕ) → since ≤ env.clock n) where
  sent-IsLate : (c : Call) → IsSent env c → IsLate since c
  sent-IsLate (on t i (UnitCall.hold k u x)) (n, late) = omega (arith, later n)
  sent-IsLate (on t i (UnitCall.release k)) h = tt
  sent-IsLate (on t i (UnitCall.confirm_sale k)) h = tt
  sent-IsLate (on t i UnitCall.void) h = tt
  sent-IsLate (insert news) h = tt

  sent-AreLate : (cs : List Call) → All (IsSent env) cs → All (IsLate since) cs
  sent-AreLate [] h = tt
  sent-AreLate (c ∷ cs) h = (sent-IsLate c h.0, sent-AreLate cs h.1)

  -- What follows keeps the table's invariants and adds nothing to the backlog.
  Follows-keeps :
      {before after : Table}
      → Follows env before after
      → IsKeyed before
      → All IsConsistent before
      → IsKeyed after × All IsConsistent after × (backlog since after ≤ backlog since before)
  Follows-keeps {before} f keyed consistent = (
    subst IsKeyed (sym f.history) (run-IsKeyed f.calls before keyed),
    subst (All IsConsistent) (sym f.history) (run-IsConsistent f.calls before consistent),
    subst (λ t. backlog since t ≤ backlog since before) (sym f.history)
        (run-backlog since f.calls before (sent-AreLate f.calls f.are_sent)),
  )

  module _ (calm : (n : ℕ) → env.fails n ≡ false) {S : Type 0} (deps : RouterDeps S)
      (cfg : WorkerConfig) (body_of : Payload → String) where
    room_left :
        (n b before after : ℕ) → after + min b before ≡ before → before ≤ suc n * b → after ≤ n * b
    room_left n b before after h enough = ground arith

    step_leaves_room :
        (event : SystemEvent) (events : List SystemEvent) (s : S) (w : World)
        → IsKeyed w.db.inventory
        → All IsConsistent w.db.inventory
        → backlog since w.db.inventory ≤ sweeps (event ∷ events) * cfg.sweep_batch_size
        → backlog since (system_step deps cfg body_of event env (s, w)).1.db.inventory
          ≤ sweeps events * cfg.sweep_batch_size
    unfolding sweeps system_step sweep_tick
    step_leaves_room SystemEvent.sweep events s w keyed consistent enough =
        room_left (sweeps events) cfg.sweep_batch_size (backlog since w.db.inventory) _
          (sweep-backlog env calm since cfg.sweep_batch_size w (later w.tick) keyed consistent)
          enough
    step_leaves_room (SystemEvent.request r headers) events s w keyed consistent enough = omega (
      arith,
      (Follows-keeps (step-Follows deps cfg body_of (SystemEvent.request r headers) env s w) keyed
          consistent).2,
    )
    step_leaves_room SystemEvent.admission events s w keyed consistent enough = omega (
      arith,
      (Follows-keeps (step-Follows deps cfg body_of SystemEvent.admission env s w) keyed
          consistent).2,
    )
    step_leaves_room SystemEvent.notification events s w keyed consistent enough = omega (
      arith,
      (Follows-keeps (step-Follows deps cfg body_of SystemEvent.notification env s w) keyed
          consistent).2,
    )

    -- Where nothing fails and the clock never shows less than the instant `since`, a run of the
    -- system in which the worker sweeps often enough, the number of sweeps times the batch size
    -- being at least the number of holds that expired before `since`, leaves no such hold: every
    -- one was released or sold, whatever requests and other ticks came in between, and no request
    -- has made another.
    pub sweeps_drain :
        (events : List SystemEvent) (s : S) (w : World)
        → IsKeyed w.db.inventory
        → All IsConsistent w.db.inventory
        → backlog since w.db.inventory ≤ sweeps events * cfg.sweep_batch_size
        → backlog since (system_run deps cfg body_of events env (s, w)).1.db.inventory ≡ 0
    unfolding system_run sweeps
    sweeps_drain [] s w keyed consistent enough = omega arith
    sweeps_drain (event ∷ events) s w keyed consistent enough =
        let (s', w') = system_step deps cfg body_of event env (s, w) in
        let kept = Follows-keeps (step-Follows deps cfg body_of event env s w) keyed consistent in
        sweeps_drain events s' w' kept.0 kept.1
          (step_leaves_room event events s w keyed consistent enough)
