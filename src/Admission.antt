-- ===== src/Admission.antt =====
-- internal/service/admission: how many fans the worker lets through in a tick.
pub mod Bounds
pub mod Counts
use ticketing_backend.Prelude.{some, none}
use ticketing_backend.Domain.Accounts.{Tenant, TenantStatus}
use ticketing_backend.Domain.Events.{Event, EventStatus}
use ticketing_backend.Store.Action.{World, Env}
use ticketing_backend.Store.EventRepo
use ticketing_backend.Store.EventRepo.{on_sale_of}
use ticketing_backend.Store.TenantRepo
use ticketing_backend.Prelude.{
  ℕ, ◌+◌, ◌%◌, Bool, true, false, List, [], ◌∷◌, ◌==◌, ltb, length, if◌then◌else◌,
}
use ticketing_backend.Domain.Amounts.{int64_mod, is_negative}
use ticketing_backend.Domain.{Result, ok, err, InventoryCounts}
use ticketing_backend.Store.InventoryRepo
use ticketing_backend.Redis.{Client, Service, return, ◌>>=◌, lift}
use ticketing_backend.Holding
use ticketing_backend.Holding.{Config}

-- The least of the first value and the others.
unfoldable pub min64 : ℕ → List ℕ → ℕ
min64 m [] = m
min64 m (v ∷ vals) = if ltb v m then min64 v vals else min64 m vals

-- The sum of the free units, of which a table has far fewer than 2 ^ 63.
unfoldable pub total_available : List (ℕ × InventoryCounts) → ℕ
total_available [] = 0
total_available ((category, c) ∷ counts) = c.available + total_available counts

module _ {S : Type 0} (client : Client S) (cfg : Config) (max_admit_per_tick : ℕ) where
  abbrev pub admit_some : ℕ → ℕ → Service S ℕ
  admit_some event_id count =
      if count == 0
      then return 0
      else (Holding.admit_next client cfg event_id count >>= λ admitted. return (length admitted))

  unfoldable pub admit_available : ℕ → ℕ → ℕ → Service S ℕ
  admit_available event_id queue_len available =
      if available == 0
      then return 0
      else admit_some event_id (min64 queue_len (available ∷ max_admit_per_tick ∷ []))

  unfoldable pub admit_queued : ℕ → ℕ → ℕ → Service S ℕ
  unfolding admit_available
  admit_queued tenant_id event_id queue_len =
      if queue_len == 0
      then return 0
      else (lift (InventoryRepo.count_by_status tenant_id event_id) >>= λ counts.
          admit_available event_id queue_len (total_available counts))

  -- admitForEvent, with a cap that is not negative
  unfoldable pub admit_for_event : ℕ → ℕ → Service S ℕ
  unfolding admit_queued
  admit_for_event tenant_id event_id = do
    queue_len ← Holding.queue_length client cfg event_id
    admit_queued tenant_id event_id queue_len

  abbrev pub more : ℕ → Result ℕ → ℕ
  more admitted_total (ok admitted) = admitted_total + admitted
  more admitted_total (err e) = admitted_total

  -- The loop over a tenant's events, from the given total: an error is logged and skipped.
  unfoldable pub admit_events : ℕ → List Event → ℕ → Env → S × World → ℕ × (S × World)
  unfolding admit_for_event
  admit_events tenant_id [] admitted_total env w = (admitted_total, w)
  admit_events tenant_id (event ∷ events) admitted_total env w =
      let (r, w') = admit_for_event tenant_id event.id env w in
      admit_events tenant_id events (more admitted_total r) env w'

  abbrev pub admit_listed : ℕ → Result (List Event) → ℕ → Env → S × World → ℕ × (S × World)
  admit_listed tenant_id (ok events) admitted_total env w =
      admit_events tenant_id events admitted_total env w
  admit_listed tenant_id (err e) admitted_total env w = (admitted_total, w)

  -- The loop over the tenants: one whose events cannot be listed is logged and skipped.
  unfoldable pub admit_tenants : List Tenant → ℕ → Env → S × World → ℕ × (S × World)
  unfolding admit_events
  admit_tenants [] admitted_total env w = (admitted_total, w)
  admit_tenants (tenant ∷ tenants) admitted_total env w =
      let (r, w') = lift (EventRepo.list (on_sale_of tenant.id) 1000 0) env w in
      let (total, w'') = admit_listed tenant.id r admitted_total env w' in
      admit_tenants tenants total env w''

  abbrev pub run_listed : Result (List Tenant) → Env → S × World → Result ℕ × (S × World)
  run_listed (ok tenants) env w = let (total, w') = admit_tenants tenants 0 env w in (ok total, w')
  run_listed (err e) env w = (err e, w)

  -- RunOnce
  unfoldable pub run_once : Service S ℕ
  unfolding admit_tenants
  run_once env w =
      let (r, w') = lift (TenantRepo.list TenantStatus.active 1000 0) env w in run_listed r env w'
