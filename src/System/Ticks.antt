-- ===== src/System/Ticks.antt =====
-- The ticks of the worker as histories of statements on event_seat_inventory.
use ticketing_backend.Prelude.{
  ℕ, ◌+◌, ◌==◌, refl, inl, inr, arith, String, Bool, true, false, Option, none, some, List, [], ◌∷◌,
  Bool-cases, length,
}
use ticketing_backend.Domain.{Error, Result, ok, err, EventSeatInventory, Notification, Payload}
use ticketing_backend.Domain.Accounts.{Tenant, TenantStatus}
use ticketing_backend.Domain.Events.{Event}
use ticketing_backend.Store.InventoryRepo
use ticketing_backend.Store.EventRepo
use ticketing_backend.Store.EventRepo.{on_sale_of}
use ticketing_backend.Store.TenantRepo
use ticketing_backend.Store.NotificationRepo
use ticketing_backend.Store.Action.{World, Env, pure, now, ◌>>=◌}
use ticketing_backend.Redis.{Client, lift}
use ticketing_backend.Holding.{Config}
use ticketing_backend.Holding.Sweep.{release_row, release_rows, swept, sweep_expired_holds}
use ticketing_backend.Admission.{
  admit_for_event, admit_queued, admit_available, admit_some, admit_events, admit_tenants,
  admit_listed, more, run_listed, run_once, total_available, min64,
}
use ticketing_backend.Outbox.{
  send, render, process_one, record_attempt, process_all, process_pending,
}
use ticketing_backend.System.Histories.{
  Follows, Follows-refl, Follows-trans, Sends, quietly, bind-Sends, end-Sends, inventory_of,
}
use ticketing_backend.System.Statements.{
  release-Sends, list_expired-Sends, count_by_status-Sends, list_events-Sends, list_tenants-Sends,
  list_pending-Sends, mark_failed-Sends, get_user-Sends,
}
use ticketing_backend.System.Exchanges.{shared, lift-Sends, admit_next-Sends, queue_length-Sends}

release_row-Sends : (row : EventSeatInventory) → Sends inventory_of (release_row row)
unfolding release_row
release_row-Sends row =
    elim row.hold_token
      as (λ token. Sends inventory_of (elim token [
        | none ↦ pure false
        | some k ↦ InventoryRepo.release row.tenant_id row.id k
      ])) [ none ↦ end-Sends inventory_of _ | some k ↦ release-Sends row.tenant_id row.id k ]

released_one-Sends :
    (n : ℕ) (rows : List EventSeatInventory) (r : Result Bool) (env : Env) (w : World)
    → ((k : ℕ) → Sends inventory_of (release_rows k rows))
    → Follows env (inventory_of w) (
        inventory_of
          (elim r as (λ _. (ℕ × Option Error) × World) [
            | ok true ↦ release_rows (n + 1) rows env w
            | ok false ↦ release_rows n rows env w
            | err e ↦ ((n, some e), w)
          ]).1)
released_one-Sends n rows (ok true) env w rest = (rest (n + 1)).sends env w
released_one-Sends n rows (ok false) env w rest = (rest n).sends env w
released_one-Sends n rows (err e) env w rest = Follows-refl refl

release_rows-Sends :
    (n : ℕ) (rows : List EventSeatInventory) → Sends inventory_of (release_rows n rows)
unfolding release_rows
release_rows-Sends n [] = end-Sends inventory_of _
release_rows-Sends n (row ∷ rows) = record {
  sends = λ env w.
      let (r, w') = release_row row env w in
      Follows-trans ((release_row-Sends row).sends env w)
        (released_one-Sends n rows r env w' (λ k. release_rows-Sends k rows));
}

swept-Sends : (found : Result (List EventSeatInventory)) → Sends inventory_of (swept found)
swept-Sends (ok rows) = release_rows-Sends 0 rows
swept-Sends (err e) = end-Sends inventory_of _

pub sweep-Sends : (batch : ℕ) → Sends inventory_of (sweep_expired_holds batch)
unfolding sweep_expired_holds
sweep-Sends batch = record {
  sends = λ env w.
      let listing = now >>= λ instant. InventoryRepo.list_expired_holds instant batch in
      Follows-trans
        ((bind-Sends inventory_of (quietly inventory_of {m = now} λ env w. refl)
            λ instant. list_expired-Sends instant batch).sends
          env w)
        ((swept-Sends (listing env w).0).sends env (listing env w).1);
}

module _ {S : Type 0} (client : Client S) (cfg : Config) (cap : ℕ) where
  some-Sends : (event count : ℕ) → Sends shared (admit_some client cfg cap event count)
  some-Sends event count = elim (Bool-cases (count == 0)) [
    | inl e ↦ rw e (end-Sends shared (ok 0))
    | inr e ↦ rw e (
        bind-Sends shared (admit_next-Sends client cfg event count)
          λ admitted. end-Sends shared (ok (length admitted)))
  ]

  available-Sends :
      (event queued available : ℕ)
      → Sends shared (admit_available client cfg cap event queued available)
  unfolding admit_available
  available-Sends event queued available = elim (Bool-cases (available == 0)) [
    | inl e ↦ rw e (end-Sends shared (ok 0))
    | inr e ↦ rw e (some-Sends event (min64 queued (available ∷ cap ∷ [])))
  ]

  queued-Sends : (t event queued : ℕ) → Sends shared (admit_queued client cfg cap t event queued)
  unfolding admit_queued
  queued-Sends t event queued = elim (Bool-cases (queued == 0)) [
    | inl e ↦ rw e (end-Sends shared (ok 0))
    | inr e ↦ rw e (
        bind-Sends shared (lift-Sends (count_by_status-Sends t event))
          λ counts. available-Sends event queued (total_available counts))
  ]

  event-Sends : (t event : ℕ) → Sends shared (admit_for_event client cfg cap t event)
  unfolding admit_for_event
  event-Sends t event =
      bind-Sends shared (queue_length-Sends client cfg event) λ queued. queued-Sends t event queued

  events-Sends :
      (t : ℕ) (events : List Event) (total : ℕ)
      → Sends shared (admit_events client cfg cap t events total)
  unfolding admit_events
  events-Sends t [] total = end-Sends shared total
  events-Sends t (event ∷ events) total = record {
    sends = λ env w.
        let (r, w') = admit_for_event client cfg cap t event.id env w in
        Follows-trans ((event-Sends t event.id).sends env w)
          ((events-Sends t events (more client cfg cap total r)).sends env w');
  }

  listed-Sends :
      (t : ℕ) (found : Result (List Event)) (total : ℕ)
      → Sends shared (admit_listed client cfg cap t found total)
  listed-Sends t (ok events) total = events-Sends t events total
  listed-Sends t (err e) total = end-Sends shared total

  tenants-Sends :
      (tenants : List Tenant) (total : ℕ)
      → Sends shared (admit_tenants client cfg cap tenants total)
  unfolding admit_tenants
  tenants-Sends [] total = end-Sends shared total
  tenants-Sends (tenant ∷ tenants) total = record {
    sends = λ env w.
        let (r, w') = lift (EventRepo.list (on_sale_of tenant.id) 1000 0) env w in
        let (n, w'') = admit_listed client cfg cap tenant.id r total env w' in
        Follows-trans ((lift-Sends (list_events-Sends (on_sale_of tenant.id) 1000 0)).sends env w) (
          Follows-trans ((listed-Sends tenant.id r total).sends env w')
            ((tenants-Sends tenants n).sends env w''));
  }

  run_listed-Sends : (found : Result (List Tenant)) → Sends shared (run_listed client cfg cap found)
  run_listed-Sends (ok tenants) = record { sends = λ env w. (tenants-Sends tenants 0).sends env w }
  run_listed-Sends (err e) = end-Sends shared _

  pub run_once-Sends : Sends shared (run_once client cfg cap)
  unfolding run_once
  run_once-Sends = record {
    sends = λ env w.
        let (r, w') = lift (TenantRepo.list TenantStatus.active 1000 0) env w in
        Follows-trans ((lift-Sends (list_tenants-Sends TenantStatus.active 1000 0)).sends env w)
          ((run_listed-Sends r).sends env w');
  }

module _ (body_of : Payload → String) where
  one-Sends : (n : Notification) → Sends inventory_of (process_one body_of n)
  unfolding process_one send
  one-Sends n =
      bind-Sends inventory_of (get_user-Sends n.user_id)
        λ user. quietly inventory_of {m = send (render body_of n user.email)} λ env w. ground arith

  attempt_recorded-Sends :
      (n : Notification) (r : Result (Unit {0})) → Sends inventory_of (record_attempt body_of n r)
  unfolding record_attempt NotificationRepo.mark_sent NotificationRepo.mark_failed
  attempt_recorded-Sends n (err e) = record {
    sends = λ env w. (mark_failed-Sends n.id e).sends env w;
  }
  attempt_recorded-Sends n (ok u) = quietly inventory_of λ env w. ground arith

  counted-Sends :
      (sent : ℕ) (ns : List Notification) (counts : Bool) (env : Env) (w : World)
      → ((k : ℕ) → Sends inventory_of (process_all body_of k ns))
      → Follows env (inventory_of w) (
          inventory_of
            (elim counts as (λ _. ℕ × World) [
              | true ↦ process_all body_of (sent + 1) ns env w
              | false ↦ process_all body_of sent ns env w
            ]).1)
  counted-Sends sent ns true env w rest = (rest (sent + 1)).sends env w
  counted-Sends sent ns false env w rest = (rest sent).sends env w

  all-Sends : (sent : ℕ) (ns : List Notification) → Sends inventory_of (process_all body_of sent ns)
  unfolding process_all
  all-Sends sent [] = end-Sends inventory_of sent
  all-Sends sent (n ∷ ns) = record {
    sends = λ env w.
        let (r, w1) = process_one body_of n env w in
        let (counts, w2) = record_attempt body_of n r env w1 in
        Follows-trans ((one-Sends n).sends env w) (
          Follows-trans ((attempt_recorded-Sends n r).sends env w1)
            (counted-Sends sent ns counts env w2 (λ k. all-Sends k ns)));
  }

  pub pending-Sends : (batch : ℕ) → Sends inventory_of (process_pending body_of batch)
  unfolding process_pending
  pending-Sends batch = record {
    sends = λ env w. Follows-trans ((list_pending-Sends batch).sends env w) (
        rest (NotificationRepo.list_pending batch env w).0 env
          (NotificationRepo.list_pending batch env w).1);
  }
    where
      rest :
          (r : Result (List Notification)) (env : Env) (w : World)
          → Follows env (inventory_of w) (
              inventory_of
                (elim r as (λ _. Result ℕ × World) [
                  | ok pending ↦
                      let (sent, w2) = process_all body_of 0 pending env w in (ok sent, w2)
                  | err e ↦ (err e, w)
                ]).1)
      rest (ok pending) env w = (all-Sends 0 pending).sends env w
      rest (err e) env w = Follows-refl refl
