-- ===== src/System/Statements.antt =====
-- The repositories' methods as histories of statements on event_seat_inventory.
use ticketing_backend.Prelude.{
  ℕ, ◌≤◌, refl, inl, inr, arith, String, none, some, List, [], ◌∷◌, Bool-cases,
}
use ticketing_backend.Domain.{Error, ok, err, EventSeatInventory, Notification}
use ticketing_backend.Domain.Accounts.{User, RefreshToken, TenantStatus}
use ticketing_backend.Domain.Events.{Event, EventTicketCategory, SeatCategory}
use ticketing_backend.Domain.Venues.{Venue}
use ticketing_backend.Store.Action.{World, Env, Action, exec}
use ticketing_backend.Store.Inventory
use ticketing_backend.Store.InventoryRepo
use ticketing_backend.Store.NotificationRepo
use ticketing_backend.Store.UserRepo
use ticketing_backend.Store.TokenRepo
use ticketing_backend.Store.EventRepo
use ticketing_backend.Store.EventRepo.{EventFilter}
use ticketing_backend.Store.VenueRepo
use ticketing_backend.Store.TenantRepo
use ticketing_backend.Store.SeatCategoryRepo
use ticketing_backend.SeatInventory.Calls.{UnitCall, on, insert, run, step, unit_step}
use ticketing_backend.System.Histories.{
  Follows, Follows-refl, Sends, quietly, bind-Sends, exec_quiet, end-Sends, with_id-Sends,
  inventory_of,
}

-- A hold whose expiry is not before an instant of the clock.
pub hold-Follows :
    (t i k u x n : ℕ) (env : Env) (w : World)
    → env.clock n ≤ x
    → Follows env w.db.inventory (InventoryRepo.hold t i k u x env w).1.db.inventory
unfolding InventoryRepo.hold run step unit_step
hold-Follows t i k u x n env w late = elim (Bool-cases (env.fails w.tick)) [
  | inl down ↦ Follows-refl (ground arith)
  | inr up ↦ record {
    calls = on t i (UnitCall.hold k u x) ∷ [];
    are_sent = ((n, late), tt);
    history = ground arith;
  }
]

pub release-Sends : (t i k : ℕ) → Sends inventory_of (InventoryRepo.release t i k)
unfolding InventoryRepo.release run step unit_step
release-Sends t i k = record {
  sends = λ env w. elim (Bool-cases (env.fails w.tick)) [
    | inl down ↦ Follows-refl (ground arith)
    | inr up ↦ record {
      calls = on t i (UnitCall.release k) ∷ [];
      are_sent = (tt, tt);
      history = ground arith;
    }
  ];
}

pub confirm_sale-Sends : (t i k : ℕ) → Sends inventory_of (InventoryRepo.confirm_sale t i k)
unfolding InventoryRepo.confirm_sale run step unit_step
confirm_sale-Sends t i k = record {
  sends = λ env w. elim (Bool-cases (env.fails w.tick)) [
    | inl down ↦ Follows-refl (ground arith)
    | inr up ↦ record {
      calls = on t i (UnitCall.confirm_sale k) ∷ [];
      are_sent = (tt, tt);
      history = ground arith;
    }
  ];
}

abbrev insert_rows : List EventSeatInventory → Action (Unit {0})
insert_rows news = exec λ db. elim (Inventory.insert_batch news db.inventory) [
  | none ↦ (err Error.other, db)
  | some table ↦ (ok tt, record db { inventory = table })
]

insert_rows-Sends : (news : List EventSeatInventory) → Sends inventory_of (insert_rows news)
unfolding run step
insert_rows-Sends news = record {
  sends = λ env w. elim (Bool-cases (env.fails w.tick)) [
    | inl down ↦ Follows-refl (ground arith)
    | inr up ↦ record { calls = insert news ∷ []; are_sent = (tt, tt); history = ground arith }
  ];
}

assign_ids-Sends :
    (rows : List EventSeatInventory) → Sends inventory_of (InventoryRepo.assign_ids rows)
unfolding InventoryRepo.assign_ids
assign_ids-Sends [] = quietly inventory_of λ env w. refl
assign_ids-Sends (row ∷ rows) =
    bind-Sends inventory_of (with_id-Sends row.id)
      λ id. bind-Sends inventory_of (assign_ids-Sends rows) λ rest. end-Sends inventory_of _

pub bulk_create-Sends :
    (rows : List EventSeatInventory) → Sends inventory_of (InventoryRepo.bulk_create rows)
unfolding InventoryRepo.bulk_create
bulk_create-Sends [] = quietly inventory_of λ env w. refl
bulk_create-Sends (row ∷ rows) =
    bind-Sends inventory_of (assign_ids-Sends (row ∷ rows)) λ news. insert_rows-Sends news

-- The methods that leave the table alone.
abbrev pub IsQuiet : {A : Type 0} → Action A → Type 0
IsQuiet m = Sends inventory_of m

pub get_unit-Sends : (t i : ℕ) → IsQuiet (InventoryRepo.get_by_id t i)
unfolding InventoryRepo.get_by_id
get_unit-Sends t i = exec_quiet _ λ db. refl

pub list_expired-Sends :
    (before limit : ℕ) → IsQuiet (InventoryRepo.list_expired_holds before limit)
unfolding InventoryRepo.list_expired_holds
list_expired-Sends before limit = exec_quiet _ λ db. refl

pub count_by_status-Sends : (t e : ℕ) → IsQuiet (InventoryRepo.count_by_status t e)
unfolding InventoryRepo.count_by_status
count_by_status-Sends t e = exec_quiet _ λ db. refl

pub create_user-Sends : (u : User) → IsQuiet (UserRepo.create u)
unfolding UserRepo.create UserRepo.insert_user
create_user-Sends u = quietly inventory_of λ env w. ground arith

pub get_user-Sends : (id : ℕ) → IsQuiet (UserRepo.get_by_id id)
unfolding UserRepo.get_by_id
get_user-Sends id = exec_quiet _ λ db. refl

pub get_by_email-Sends : (email : String) → IsQuiet (UserRepo.get_by_email email)
unfolding UserRepo.get_by_email
get_by_email-Sends email = exec_quiet _ λ db. refl

pub create_token-Sends : (rt : RefreshToken) → IsQuiet (TokenRepo.create rt)
unfolding TokenRepo.create TokenRepo.insert_token
create_token-Sends rt = quietly inventory_of λ env w. ground arith

pub get_by_token_hash-Sends : (hash : String) → IsQuiet (TokenRepo.get_by_token_hash hash)
unfolding TokenRepo.get_by_token_hash
get_by_token_hash-Sends hash = exec_quiet _ λ db. refl

pub revoke-Sends : (id : ℕ) → IsQuiet (TokenRepo.revoke id)
unfolding TokenRepo.revoke
revoke-Sends id = quietly inventory_of λ env w. ground arith

pub get_event-Sends : (t id : ℕ) → IsQuiet (EventRepo.get_by_id t id)
unfolding EventRepo.get_by_id
get_event-Sends t id = exec_quiet _ λ db. refl

pub list_categories-Sends : (t id : ℕ) → IsQuiet (EventRepo.list_ticket_categories t id)
unfolding EventRepo.list_ticket_categories
list_categories-Sends t id = exec_quiet _ λ db. refl

pub list_events-Sends :
    (filter : EventFilter) (limit offset : ℕ) → IsQuiet (EventRepo.list filter limit offset)
unfolding EventRepo.list
list_events-Sends filter limit offset = exec_quiet _ λ db. refl

pub create_event-Sends : (e : Event) → IsQuiet (EventRepo.create e)
unfolding EventRepo.create EventRepo.insert_event
create_event-Sends e = quietly inventory_of λ env w. ground arith

pub update_event-Sends : (e : Event) → IsQuiet (EventRepo.update e)
unfolding EventRepo.update EventRepo.update_event
update_event-Sends e = exec_quiet (EventRepo.update_event e) λ db. ground arith

pub create_category-Sends : (c : EventTicketCategory) → IsQuiet (EventRepo.create_ticket_category c)
unfolding EventRepo.create_ticket_category EventRepo.insert_category
create_category-Sends c = quietly inventory_of λ env w. ground arith

pub create_seat_category-Sends : (c : SeatCategory) → IsQuiet (SeatCategoryRepo.create c)
unfolding SeatCategoryRepo.create SeatCategoryRepo.insert_seat_category
create_seat_category-Sends c = quietly inventory_of λ env w. ground arith

pub create_venue-Sends : (v : Venue) → IsQuiet (VenueRepo.create_venue v)
unfolding VenueRepo.create_venue VenueRepo.insert_venue
create_venue-Sends v = quietly inventory_of λ env w. ground arith

pub list_venues-Sends : (t limit offset : ℕ) → IsQuiet (VenueRepo.list_venues t limit offset)
unfolding VenueRepo.list_venues
list_venues-Sends t limit offset = quietly inventory_of λ env w. ground arith

pub list_tenants-Sends :
    (status : TenantStatus) (limit offset : ℕ) → IsQuiet (TenantRepo.list status limit offset)
unfolding TenantRepo.list
list_tenants-Sends status limit offset = quietly inventory_of λ env w. ground arith

pub create_notification-Sends : (n : Notification) → IsQuiet (NotificationRepo.create n)
unfolding NotificationRepo.create
create_notification-Sends n = quietly inventory_of λ env w. ground arith

pub list_pending-Sends : (limit : ℕ) → IsQuiet (NotificationRepo.list_pending limit)
unfolding NotificationRepo.list_pending
list_pending-Sends limit = exec_quiet _ λ db. refl

pub mark_sent-Sends : (id : ℕ) → IsQuiet (NotificationRepo.mark_sent id)
unfolding NotificationRepo.mark_sent
mark_sent-Sends id = quietly inventory_of λ env w. ground arith

pub mark_failed-Sends : (id : ℕ) (e : Error) → IsQuiet (NotificationRepo.mark_failed id e)
unfolding NotificationRepo.mark_failed
mark_failed-Sends id e = exec_quiet _ λ db. refl
