-- ===== src/Tests/Requests.antt =====
-- A fan's request for a hold, an administrator's for an event, and the count of the free units.
use ticketing_backend.Prelude.{ℕ, ◌≡◌, ◌⊎◌, ◌&&◌, ◌==◌, true, none, some, [], ◌∷◌}
use ticketing_backend.Domain.{is_available}
use ticketing_backend.Domain.Events.{Event, EventStatus}
use ticketing_backend.Sql.{count_where}
use ticketing_backend.Store.EventRepo
use ticketing_backend.Store.Inventory
use ticketing_backend.Store.InventoryRepo
use ticketing_backend.Store.Action.{Db, World}
use ticketing_backend.Store.Inventory.{count_by_status}
use ticketing_backend.Admission.{total_available}
use ticketing_backend.Admission.Counts.{total_available_lem}
use ticketing_backend.Holding.{HoldResult}
use ticketing_backend.Auth.{Externals, parse_access_token}
use ticketing_backend.Http.{Reply}
use ticketing_backend.Http.Gate.{Headers, Context}
use ticketing_backend.Http.Routes.{purchase, protected_admin}
use ticketing_backend.Http.Seats.{HoldSeatRequest, hold_handler}
use ticketing_backend.Http.Holds.{IsIdle, IsHeld, IsLetIn, db_of, parse, purchase_hold_sound}
use ticketing_backend.Http.Admin.{
  AdminChecks, CreateEventRequest, PublishEventRequest, publish_event,
}
use ticketing_backend.Http.Isolation.{without_tenant}
use ticketing_backend.Http.Staff.{AdminRequest, IsStaff, serve, other_tenants_kept}
use ticketing_backend.Tests.Data.{tables, units, units-IsKeyed, world_of, calm_env}
use ticketing_backend.Tests.Accounts.{externals, jwt}
use ticketing_backend.Tests.Holds.{forgetful, config}

abbrev pub headers : Headers
headers = record { authorization = "Bearer signed"; x_tenant_id = "tenant" }

abbrev pub request : HoldSeatRequest
request = record { event_id = "event" }

abbrev asked : Reply HoldResult × (Unit {0} × World)
asked =
    purchase externals (parse externals forgetful config jwt) headers
      (λ ctx. hold_handler externals forgetful config ctx "unit" (some request)) calm_env
      (tt, world_of tables)

purchase_hold_sound_example :
    ((ctx : Context) × IsLetIn externals forgetful config jwt headers calm_env (world_of tables) ctx
      × IsHeld externals forgetful config ctx "unit" tables asked)
    ⊎ IsIdle (db_of externals forgetful config) tables asked
purchase_hold_sound_example =
    purchase_hold_sound externals forgetful config jwt headers "unit" (some request) calm_env tt
      (world_of tables) units-IsKeyed

abbrev pub staff : Externals
staff = record externals {
  parse_with_claims = λ secret now token. some (
    record {
      subject = "20";
      issued_at = 100;
      expires_at = 400;
      role = "admin";
      tenant_id = "tenant";
    },
    true,
  );
}

abbrev pub admin_checks : AdminChecks
admin_checks = record {
  seat_category = λ req. true;
  event = λ req. true;
  ticket_category = λ req. true;
  publish = λ req. true;
  venue = λ req. true;
}

abbrev derby : CreateEventRequest
derby = record {
  venue_id = "venue";
  name = "Derby";
  competition = "";
  home_team = "";
  away_team = "";
  starts_at = 900;
  doors_open_at = none;
  sales_start_at = 100;
  sales_end_at = 800;
}

abbrev set_up : Db
set_up =
    (protected_admin staff (parse_access_token staff jwt) headers
      (serve staff admin_checks (AdminRequest.post_event (some derby))) calm_env
      (world_of tables)).1.db

other_tenants_kept_example :
    (set_up ≡ tables)
    ⊎ ((t : ℕ) × IsStaff staff admin_checks jwt headers calm_env (world_of tables) t
        × (without_tenant t set_up ≡ without_tenant t tables))
other_tenants_kept_example =
    other_tenants_kept staff admin_checks jwt headers (AdminRequest.post_event (some derby))
      calm_env (world_of tables)

total_available_lem_example :
    total_available (count_by_status 1 3 units)
    ≡ count_where (λ row. row.tenant_id == 1 && row.event_id == 3 && is_available row.status) units
total_available_lem_example = total_available_lem 1 3 units

abbrev game : Event
game = record {
  id = 20;
  tenant_id = 20;
  venue_id = 4;
  name = "Derby";
  competition = "";
  home_team = "";
  away_team = "";
  starts_at = 900;
  doors_open_at = none;
  sales_start_at = 100;
  sales_end_at = 800;
  status = EventStatus.draft;
}

abbrev two : PublishEventRequest
two = record { event_ticket_category_id = "category"; quantity = 2 }

abbrev publisher : Context
publisher = record {
  claims = some (record {
    subject = "20";
    issued_at = 100;
    expires_at = 400;
    role = "admin";
    tenant_id = "tenant";
  });
  resolved_tenant = none;
}

abbrev unpublished : World
unpublished = world_of (record tables { events = game ∷ [] })

abbrev published : Reply (ℕ × EventStatus) × World
published = publish_event staff admin_checks "event" (some two) publisher calm_env unpublished
