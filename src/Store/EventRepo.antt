-- ===== src/Store/EventRepo.antt =====
-- internal/repository/postgres/event.go: the tables events and event_ticket_categories, with the
-- constraints of migrations/000005_seat_categories_and_events.up.sql.
use ticketing_backend.Prelude.{[], ◌∷◌, ◌++◌, not, ◌||◌, if◌then◌else◌}
use ticketing_backend.Domain.{Error, Result, err}
use ticketing_backend.Domain.Amounts.{is_negative}
use ticketing_backend.Domain.Venues.{Venue}
use ticketing_backend.Sql.{count_where, update_where}
use ticketing_backend.Store.Action.{pure, ◌>>=◌, ◌>>◌, with_id}
use ticketing_backend.Prelude.{
  ℕ, Bool, true, false, ◌&&◌, Option, none, some, List, ◌==◌, leb, ltb, take, drop,
}
use ticketing_backend.Domain.Events.{Event, EventStatus, EventTicketCategory}
use ticketing_backend.Domain.{ok}
use ticketing_backend.Sql.{select_where, order_by, select_first}
use ticketing_backend.Store.Action.{Db, Action, exec, or_not_found}

abbrev pub categories_of : ℕ → ℕ → Db → List EventTicketCategory
categories_of tenant_id event_id db =
    select_where (λ c. c.tenant_id == tenant_id && c.event_id == event_id) db.ticket_categories

unfoldable pub list_ticket_categories : ℕ → ℕ → Action (List EventTicketCategory)
list_ticket_categories tenant_id event_id =
    exec λ db. (ok (categories_of tenant_id event_id db), db)

unfoldable pub get_by_id : ℕ → ℕ → Action Event
get_by_id tenant_id id =
    exec λ db.
      (or_not_found (select_first (λ e. e.id == id && e.tenant_id == tenant_id) db.events), db)

-- domain.EventFilter; `none` does not filter.
pub record EventFilter : Type 0 where
  pub tenant_id : ℕ
  pub status : Option EventStatus
  pub venue_id : Option ℕ
  pub from : Option ℕ
  pub to : Option ℕ

-- The filter for a tenant's events on sale.
abbrev pub on_sale_of : ℕ → EventFilter
on_sale_of tenant_id = record {
  tenant_id = tenant_id;
  status = some EventStatus.on_sale;
  venue_id = none;
  from = none;
  to = none;
}

abbrev pub same_status : EventStatus → EventStatus → Bool
same_status EventStatus.draft EventStatus.draft = true
same_status EventStatus.scheduled EventStatus.scheduled = true
same_status EventStatus.on_sale EventStatus.on_sale = true
same_status EventStatus.sold_out EventStatus.sold_out = true
same_status EventStatus.completed EventStatus.completed = true
same_status EventStatus.cancelled EventStatus.cancelled = true
same_status _ _ = false

-- A clause that is appended only where the filter has a value.
abbrev clause : {A : Type 0} → (A → Bool) → Option A → Bool
clause test none = true
clause test (some a) = test a

abbrev pub passes : EventFilter → Event → Bool
passes f e =
    e.tenant_id == f.tenant_id
    && clause (same_status e.status) f.status
    && clause (λ v. e.venue_id == v) f.venue_id
    && clause (λ t. leb t e.starts_at) f.from
    && clause (λ t. ltb e.starts_at t) f.to

unfoldable pub list : EventFilter → ℕ → ℕ → Action (List Event)
list filter limit offset = exec λ db. (
  ok (
      take limit
        (drop offset (order_by (λ e. e.starts_at) (select_where (passes filter) db.events)))),
  db,
)

-- The CHECKs of the table events.
abbrev pub fits_sales : Event → Bool
fits_sales e = ltb e.sales_start_at e.sales_end_at && leb e.sales_start_at e.starts_at

abbrev pub is_venue : ℕ → ℕ → Venue → Bool
is_venue tenant_id id v = v.id == id && v.tenant_id == tenant_id

-- A PRIMARY KEY that is taken, a CHECK and the FOREIGN KEY (venue_id, tenant_id) all give an
-- error that wraps no sentinel.
unfoldable pub insert_event : Event → Db → Result (Unit {0}) × Db
insert_event new db =
    if count_where (λ e. e.id == new.id) db.events == 0
      && fits_sales new
      && not (count_where (is_venue new.tenant_id new.venue_id) db.venues == 0)
    then (ok tt, record db { events = db.events ++ new ∷ [] })
    else (err Error.other, db)

-- The result is the event as the pointer's target is afterwards.
unfoldable pub create : Event → Action Event
unfolding insert_event
create e = do
  id ← with_id e.id
  exec (insert_event (record e { id = id }))
  pure (record e { id = id })

-- The columns that the UPDATE names: not the venue.
abbrev pub set_event : Event → Event → Event
set_event new e = record e {
  name = new.name;
  competition = new.competition;
  home_team = new.home_team;
  away_team = new.away_team;
  starts_at = new.starts_at;
  doors_open_at = new.doors_open_at;
  sales_start_at = new.sales_start_at;
  sales_end_at = new.sales_end_at;
  status = new.status;
}

abbrev pub is_event : ℕ → ℕ → Event → Bool
is_event tenant_id id e = e.id == id && e.tenant_id == tenant_id

unfoldable pub update_event : Event → Db → Result (Unit {0}) × Db
update_event new db =
    if count_where (is_event new.tenant_id new.id) db.events == 0
    then (err Error.not_found, db)
    else if fits_sales new
    then (
      ok tt,
      record db { events = update_where (is_event new.tenant_id new.id) (set_event new) db.events },
    )
    else (err Error.other, db)

unfoldable pub update : Event → Action (Unit {0})
unfolding update_event
update e = exec (update_event e)

-- The PRIMARY KEY, and UNIQUE (event_id, seat_category_id)
abbrev pub category_collides : EventTicketCategory → EventTicketCategory → Bool
category_collides new c =
    c.id == new.id || c.event_id == new.event_id && c.seat_category_id == new.seat_category_id

-- The FOREIGN KEYs (event_id, tenant_id) and (seat_category_id, tenant_id), and the CHECK on the
-- price
abbrev pub has_parents : EventTicketCategory → Db → Bool
has_parents new db =
    not (count_where (is_event new.tenant_id new.event_id) db.events == 0)
    && not (
        count_where (λ s. s.id == new.seat_category_id && s.tenant_id == new.tenant_id)
          db.seat_categories
        == 0)

unfoldable pub insert_category : EventTicketCategory → Db → Result (Unit {0}) × Db
insert_category new db =
    if is_negative new.price.cents
    then (err Error.other, db)
    else if count_where (category_collides new) db.ticket_categories == 0
    then (if has_parents new db
        then (ok tt, record db { ticket_categories = db.ticket_categories ++ new ∷ [] })
        else (err Error.other, db))
    else (err Error.conflict, db)

-- `if etc.MaxPerOrder <= 0 { etc.MaxPerOrder = 6 }`, where a negative number is not in the model
abbrev pub with_limit : EventTicketCategory → EventTicketCategory
with_limit c = if c.max_per_order == 0 then record c { max_per_order = 6 } else c

unfoldable pub create_ticket_category : EventTicketCategory → Action EventTicketCategory
unfolding insert_category
create_ticket_category c = do
  id ← with_id c.id
  exec (insert_category (with_limit (record c { id = id })))
  pure (with_limit (record c { id = id }))
