-- ===== src/Http/Admin.antt =====
-- internal/handler/http/admin_event.go and admin_venue.go: what the staff of a club set up. The
-- tenant is the one of the claims.
use ticketing_backend.Prelude.{
  ℕ, zero, suc, String, Bool, ◌||◌, Option, none, List, [], ◌∷◌, length, if◌then◌else◌,
}
use ticketing_backend.Domain.{Error, EventSeatInventory, InventoryStatus, nil_uuid}
use ticketing_backend.Domain.Amounts.{Money, new_money}
use ticketing_backend.Domain.Events.{Event, EventStatus, EventTicketCategory, SeatCategory}
use ticketing_backend.Domain.Venues.{Venue}
use ticketing_backend.Store.Action.{World, Action, pure, ◌>>=◌, new_uuid}
use ticketing_backend.Store.EventRepo
use ticketing_backend.Store.EventRepo.{same_status}
use ticketing_backend.Store.InventoryRepo
use ticketing_backend.Store.SeatCategoryRepo
use ticketing_backend.Store.VenueRepo
use ticketing_backend.Auth.{Externals}
use ticketing_backend.Http.{
  Handler, need, attempt, refuse, respond, internal_error, decode_and_validate,
}
use ticketing_backend.Http.Gate.{Context, tenant_id_from_context}
use ticketing_backend.Http.Events.{EventResponse, event_response}

pub record CreateSeatCategoryRequest : Type 0 where
  pub name : String
  pub color : String

pub record CreateEventRequest : Type 0 where
  pub venue_id : String
  pub name : String
  pub competition : String
  pub home_team : String
  pub away_team : String
  pub starts_at : ℕ
  pub doors_open_at : Option ℕ
  pub sales_start_at : ℕ
  pub sales_end_at : ℕ

-- The limit per order is not negative here.
pub record CreateTicketCategoryRequest : Type 0 where
  pub seat_category_id : String
  pub price_cents : ℕ
  pub currency : String
  pub max_per_order : ℕ

pub record PublishEventRequest : Type 0 where
  pub event_ticket_category_id : String
  pub quantity : ℕ

pub record CreateVenueRequest : Type 0 where
  pub name : String
  pub address : String
  pub city : String
  pub country : String
  pub timezone : String
  pub capacity : Option ℕ

-- The validator of the struct tags.
pub record AdminChecks : Type 0 where
  pub seat_category : CreateSeatCategoryRequest → Bool
  pub event : CreateEventRequest → Bool
  pub ticket_category : CreateTicketCategoryRequest → Bool
  pub publish : PublishEventRequest → Bool
  pub venue : CreateVenueRequest → Bool

-- A general-admission unit of PublishEvent.
abbrev pub new_unit : ℕ → ℕ → ℕ → ℕ → EventSeatInventory
new_unit tenant_id event_id category_id id = record {
  id = id;
  tenant_id = tenant_id;
  event_id = event_id;
  event_ticket_category_id = category_id;
  seat_id = none;
  status = InventoryStatus.available;
  hold_token = none;
  held_by_user_id = none;
  hold_expires_at = none;
}

-- The loop of PublishEvent that makes the rows.
unfoldable pub new_units : ℕ → ℕ → ℕ → ℕ → Action (List EventSeatInventory)
new_units tenant_id event_id category_id zero = pure []
new_units tenant_id event_id category_id (suc n) = do
  id ← new_uuid
  rest ← new_units tenant_id event_id category_id n
  pure (new_unit tenant_id event_id category_id id ∷ rest)

abbrev pub is_unpublished : EventStatus → Bool
is_unpublished status =
    same_status status EventStatus.draft || same_status status EventStatus.scheduled

-- The status of the reply, after the first publication has put the event on sale.
unfoldable pub put_on_sale : Event → Action EventStatus
put_on_sale event =
    if is_unpublished event.status
    then (EventRepo.update (record event { status = EventStatus.on_sale }) >>= λ _.
        pure EventStatus.on_sale)
    else pure event.status

abbrev pub seat_category_error : Error → Handler World SeatCategory
seat_category_error Error.conflict = refuse 409 "name-taken"
seat_category_error e = internal_error e

module _ (ext : Externals) (checks : AdminChecks) where
  -- CreateSeatCategory
  unfoldable pub create_seat_category :
      Option CreateSeatCategoryRequest → Context → Handler World SeatCategory
  unfolding tenant_id_from_context decode_and_validate
  create_seat_category body ctx = need (tenant_id_from_context ext ctx) 403 "no-tenant" λ tenant_id.
      decode_and_validate checks.seat_category body λ req.
        attempt
          (SeatCategoryRepo.create
            (record { id = nil_uuid; tenant_id = tenant_id; name = req.name; color = req.color }))
          seat_category_error λ sc. respond 201 sc

  abbrev pub new_event : ℕ → ℕ → CreateEventRequest → Event
  new_event tenant_id venue_id req = record {
    id = nil_uuid;
    tenant_id = tenant_id;
    venue_id = venue_id;
    name = req.name;
    competition = req.competition;
    home_team = req.home_team;
    away_team = req.away_team;
    starts_at = req.starts_at;
    doors_open_at = req.doors_open_at;
    sales_start_at = req.sales_start_at;
    sales_end_at = req.sales_end_at;
    status = EventStatus.draft;
  }

  -- CreateEvent
  unfoldable pub create_event : Option CreateEventRequest → Context → Handler World EventResponse
  unfolding tenant_id_from_context decode_and_validate
  create_event body ctx = need (tenant_id_from_context ext ctx) 403 "no-tenant" λ tenant_id.
      decode_and_validate checks.event body λ req.
        need (ext.parse_uuid req.venue_id) 400 "invalid-venue-id" λ venue_id.
          attempt (EventRepo.create (new_event tenant_id venue_id req)) internal_error
            λ event. respond 201 (event_response event)

  abbrev pub new_category : ℕ → ℕ → ℕ → Money → ℕ → EventTicketCategory
  new_category tenant_id event_id seat_category_id price max_per_order = record {
    id = nil_uuid;
    tenant_id = tenant_id;
    event_id = event_id;
    seat_category_id = seat_category_id;
    price = price;
    max_per_order = max_per_order;
  }

  -- CreateTicketCategory, with the path's eventID
  unfoldable pub create_ticket_category :
      String → Option CreateTicketCategoryRequest → Context → Handler World EventTicketCategory
  unfolding tenant_id_from_context decode_and_validate
  create_ticket_category id body ctx = need (tenant_id_from_context ext ctx) 403 "no-tenant" λ t.
      need (ext.parse_uuid id) 400 "invalid-event-id" λ event_id.
        decode_and_validate checks.ticket_category body λ req.
          need (ext.parse_uuid req.seat_category_id) 400 "invalid-seat-category-id" λ seat_category.
            need (new_money req.price_cents req.currency) 400 "invalid-price" λ price.
              attempt
                (EventRepo.create_ticket_category
                  (new_category t event_id seat_category price req.max_per_order))
                internal_error λ category. respond 201 category

  -- PublishEvent, with the path's eventID: the number of units and the event's status
  unfoldable pub publish_event :
      String → Option PublishEventRequest → Context → Handler World (ℕ × EventStatus)
  unfolding tenant_id_from_context decode_and_validate new_units put_on_sale
  publish_event id body ctx = need (tenant_id_from_context ext ctx) 403 "no-tenant" λ tenant_id.
      need (ext.parse_uuid id) 400 "invalid-event-id" λ event_id.
        decode_and_validate checks.publish body λ req.
          need (ext.parse_uuid req.event_ticket_category_id) 400 "invalid-ticket-category-id"
            λ category_id.
              attempt (EventRepo.get_by_id tenant_id event_id) (λ e. refuse 404 "event-not-found")
                λ event.
                  attempt (new_units tenant_id event_id category_id req.quantity) internal_error
                    λ rows. attempt (InventoryRepo.bulk_create rows) internal_error λ _.
                      attempt (put_on_sale event) internal_error
                        λ status. respond 201 (length rows, status)

  -- AdminVenueHandler.Create
  unfoldable pub create_venue : Option CreateVenueRequest → Context → Handler World Venue
  unfolding tenant_id_from_context decode_and_validate
  create_venue body ctx = need (tenant_id_from_context ext ctx) 403 "no-tenant" λ tenant_id.
      decode_and_validate checks.venue body λ req.
        attempt
          (VenueRepo.create_venue (record {
            id = nil_uuid;
            tenant_id = tenant_id;
            name = req.name;
            address = req.address;
            city = req.city;
            country = req.country;
            timezone = req.timezone;
            capacity = req.capacity;
          }))
          internal_error λ venue. respond 201 venue

  -- AdminVenueHandler.List
  unfoldable pub list_venues : Context → Handler World (List Venue)
  unfolding tenant_id_from_context
  list_venues ctx = need (tenant_id_from_context ext ctx) 403 "no-tenant" λ tenant_id.
      attempt (VenueRepo.list_venues tenant_id 50 0) internal_error λ venues. respond 200 venues
