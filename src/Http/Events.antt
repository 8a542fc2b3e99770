-- ===== src/Http/Events.antt =====
-- internal/handler/http/event.go: the public browsing of a tenant's events.
use ticketing_backend.Prelude.{ℕ, String, List, map}
use ticketing_backend.Domain.{InventoryCounts}
use ticketing_backend.Domain.Events.{Event, EventStatus, EventTicketCategory}
use ticketing_backend.Store.Action.{World}
use ticketing_backend.Store.EventRepo
use ticketing_backend.Store.EventRepo.{on_sale_of}
use ticketing_backend.Store.Inventory.{available_of}
use ticketing_backend.Store.InventoryRepo
use ticketing_backend.Auth.{Externals}
use ticketing_backend.Http.{Handler, need, attempt, refuse, respond, internal_error}
use ticketing_backend.Http.Gate.{Context, resolved_tenant_id_from_context}

-- eventResponse
pub record EventResponse : Type 0 where
  pub id : ℕ
  pub venue_id : ℕ
  pub name : String
  pub competition : String
  pub home_team : String
  pub away_team : String
  pub starts_at : ℕ
  pub sales_start_at : ℕ
  pub sales_end_at : ℕ
  pub status : EventStatus

abbrev pub event_response : Event → EventResponse
event_response e = record {
  id = e.id;
  venue_id = e.venue_id;
  name = e.name;
  competition = e.competition;
  home_team = e.home_team;
  away_team = e.away_team;
  starts_at = e.starts_at;
  sales_start_at = e.sales_start_at;
  sales_end_at = e.sales_end_at;
  status = e.status;
}

-- List
unfoldable pub list : Context → Handler World (List EventResponse)
unfolding resolved_tenant_id_from_context
list ctx = need (resolved_tenant_id_from_context ctx) 400 "missing-tenant" λ tenant_id.
    attempt (EventRepo.list (on_sale_of tenant_id) 50 0) internal_error
      λ events. respond 200 (map event_response events)

pub record CategoryResponse : Type 0 where
  pub category : EventTicketCategory
  pub available : ℕ

abbrev categories_out :
    List (ℕ × InventoryCounts) → List EventTicketCategory → List CategoryResponse
categories_out counts categories =
    map (λ c. record { category = c; available = available_of c.id counts }) categories

-- Get: the event with its categories and their free units
unfoldable pub get :
    Externals → Context → String → Handler World (EventResponse × List CategoryResponse)
unfolding resolved_tenant_id_from_context available_of
get ext ctx id = need (resolved_tenant_id_from_context ctx) 400 "missing-tenant" λ tenant_id.
    need (ext.parse_uuid id) 400 "invalid-event-id" λ event_id.
      attempt (EventRepo.get_by_id tenant_id event_id) (λ e. refuse 404 "event-not-found")
        λ event.
          attempt (EventRepo.list_ticket_categories tenant_id event_id) internal_error λ categories.
            attempt (InventoryRepo.count_by_status tenant_id event_id) internal_error
              λ counts. respond 200 (event_response event, categories_out counts categories)
