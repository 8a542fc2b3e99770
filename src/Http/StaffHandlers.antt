-- ===== src/Http/StaffHandlers.antt =====
-- Lemmas on the handlers of the staff and the rows of the other tenants.
use ticketing_backend.Prelude.{
  ℕ, ◌≡◌, inl, inr, refl, ap, subst, arith, String, Option, some, Option-cases, length, All,
}
use ticketing_backend.Domain.{Error, nil_uuid}
use ticketing_backend.Domain.Amounts.{new_money}
use ticketing_backend.Domain.Events.{Event, EventStatus}
use ticketing_backend.Sql.{select_first}
use ticketing_backend.Sql.Laws.{select-first_true}
use ticketing_backend.Store.Action.{World}
use ticketing_backend.Store.EventRepo
use ticketing_backend.Store.InventoryRepo
use ticketing_backend.Store.VenueRepo
use ticketing_backend.Store.SeatCategoryRepo
use ticketing_backend.Auth.{Externals}
use ticketing_backend.Http.{Handler, need, attempt, refuse, respond, internal_error}
use ticketing_backend.Http.Gate.{Context, tenant_id_from_context}
use ticketing_backend.Http.Events.{event_response}
use ticketing_backend.Http.Admin.{
  AdminChecks, CreateSeatCategoryRequest, CreateEventRequest, CreateTicketCategoryRequest,
  PublishEventRequest, CreateVenueRequest, create_seat_category, create_event,
  create_ticket_category, publish_event, create_venue, list_venues, new_units, put_on_sale,
  new_event, new_category, seat_category_error,
}
use ticketing_backend.Http.Isolation.{
  without_tenant, Keeps, Gives, attempt-Keeps, attempt-Keeps_given, need-Keeps, decode-Keeps,
}
use ticketing_backend.Http.Tenancy.{
  IsOwn, seat_category-Keeps, event-Keeps, venue-Keeps, category-Keeps, put_on_sale-Keeps,
  new_units-MakesOwn, bulk_create-Keeps,
}

module _ (ext : Externals) (checks : AdminChecks) (t : ℕ) where
  given-Keeps :
      {B : Type 0} (o : Option ℕ) (code : ℕ) (type : String) (f : ℕ → Handler World B)
      → o ≡ some t
      → Keeps t (f t)
      → Keeps t (need o code type f)
  given-Keeps o code type f h keeps env w = rw h (keeps env w)

  seat_category_error-Keeps : (e : Error) → Keeps t (seat_category_error e)
  seat_category_error-Keeps e env w = ground arith

  list_venues_only : Keeps t (VenueRepo.list_venues t 50 0)
  unfolding VenueRepo.list_venues
  list_venues_only env w = ground arith

  pub create_seat_category-Keeps :
      (body : Option CreateSeatCategoryRequest) (ctx : Context)
      → tenant_id_from_context ext ctx ≡ some t
      → Keeps t (create_seat_category ext checks body ctx)
  unfolding create_seat_category
  create_seat_category-Keeps body ctx h =
      given-Keeps (tenant_id_from_context ext ctx) 403 "no-tenant" _ h (
        decode-Keeps t checks.seat_category body _ λ req.
          attempt-Keeps t
            (SeatCategoryRepo.create
              (record { id = nil_uuid; tenant_id = t; name = req.name; color = req.color }))
            seat_category_error (λ sc. respond 201 sc) (seat_category-Keeps t _ refl)
            seat_category_error-Keeps (λ sc env w. refl))

  pub create_event-Keeps :
      (body : Option CreateEventRequest) (ctx : Context)
      → tenant_id_from_context ext ctx ≡ some t
      → Keeps t (create_event ext checks body ctx)
  unfolding create_event
  create_event-Keeps body ctx h = given-Keeps (tenant_id_from_context ext ctx) 403 "no-tenant" _ h (
      decode-Keeps t checks.event body _ λ req.
        need-Keeps t (ext.parse_uuid req.venue_id) 400 "invalid-venue-id" _ λ venue_id.
          attempt-Keeps t (EventRepo.create (new_event ext checks t venue_id req)) internal_error
            (λ event. respond 201 (event_response event))
            (event-Keeps t (new_event ext checks t venue_id req) refl) (λ e env w. refl)
            (λ event env w. refl))

  pub create_ticket_category-Keeps :
      (id : String) (body : Option CreateTicketCategoryRequest) (ctx : Context)
      → tenant_id_from_context ext ctx ≡ some t
      → Keeps t (create_ticket_category ext checks id body ctx)
  unfolding create_ticket_category
  create_ticket_category-Keeps id body ctx h =
      given-Keeps (tenant_id_from_context ext ctx) 403 "no-tenant" _ h (
        need-Keeps t (ext.parse_uuid id) 400 "invalid-event-id" _ λ event_id.
          decode-Keeps t checks.ticket_category body _ λ req.
            need-Keeps t (ext.parse_uuid req.seat_category_id) 400 "invalid-seat-category-id" _
              λ seat_category.
                need-Keeps t (new_money req.price_cents req.currency) 400 "invalid-price" _ λ price.
                  attempt-Keeps t
                    (EventRepo.create_ticket_category
                      (new_category ext checks t event_id seat_category price req.max_per_order))
                    internal_error (λ category. respond 201 category)
                    (category-Keeps t
                      (new_category ext checks t event_id seat_category price req.max_per_order)
                      refl)
                    (λ e env w. refl) (λ category env w. refl))

  pub create_venue-Keeps :
      (body : Option CreateVenueRequest) (ctx : Context)
      → tenant_id_from_context ext ctx ≡ some t
      → Keeps t (create_venue ext checks body ctx)
  unfolding create_venue
  create_venue-Keeps body ctx h = given-Keeps (tenant_id_from_context ext ctx) 403 "no-tenant" _ h (
      decode-Keeps t checks.venue body _ λ req.
        attempt-Keeps t
          (VenueRepo.create_venue (record {
            id = nil_uuid;
            tenant_id = t;
            name = req.name;
            address = req.address;
            city = req.city;
            country = req.country;
            timezone = req.timezone;
            capacity = req.capacity;
          }))
          internal_error (λ venue. respond 201 venue) (venue-Keeps t _ refl) (λ e env w. refl)
          (λ venue env w. refl))

  pub list_venues-Keeps :
      (ctx : Context)
      → tenant_id_from_context ext ctx ≡ some t
      → Keeps t (list_venues ext checks ctx)
  unfolding list_venues
  list_venues-Keeps ctx h = given-Keeps (tenant_id_from_context ext ctx) 403 "no-tenant" _ h (
      attempt-Keeps t (VenueRepo.list_venues t 50 0) internal_error (λ venues. respond 200 venues)
        list_venues_only (λ e env w. refl) (λ venues env w. refl))

  -- The units are the tenant's, and so is the event, which the lookup found under the tenant.
  get_event-Gives :
      (event_id : ℕ) → Gives t (EventRepo.get_by_id t event_id) (λ event. event.tenant_id ≡ t)
  unfolding EventRepo.get_by_id
  get_event-Gives event_id env w event h =
      elim (Option-cases (select_first (EventRepo.is_event t event_id) w.db.events)) [
        | inl absent ↦ absurd (ground arith)
        | inr (e, found) ↦
            ground (arith, select-first_true (EventRepo.is_event t event_id) w.db.events found)
      ]

  get_event-Keeps : (event_id : ℕ) → Keeps t (EventRepo.get_by_id t event_id)
  unfolding EventRepo.get_by_id
  get_event-Keeps event_id env w = ground arith

  units-Gives :
      (event_id category_id n : ℕ) → Gives t (new_units t event_id category_id n) (All (IsOwn t))
  units-Gives event_id category_id n env w rows h =
      let (rows', good, own, same) = new_units-MakesOwn t event_id category_id n env w in
      let equal : rows' ≡ rows = ground arith in subst (All (IsOwn t)) equal own

  units-Keeps : (event_id category_id n : ℕ) → Keeps t (new_units t event_id category_id n)
  units-Keeps event_id category_id n env w =
      ap (without_tenant t) (new_units-MakesOwn t event_id category_id n env w).3

  -- The handler of a publication, from the event on.
  abbrev pub publish_found : ℕ → ℕ → PublishEventRequest → Event → Handler World (ℕ × EventStatus)
  publish_found event_id category_id req event =
      attempt (new_units t event_id category_id req.quantity) internal_error λ rows.
        attempt (InventoryRepo.bulk_create rows) internal_error λ _.
          attempt (put_on_sale event) internal_error λ status. respond 201 (length rows, status)

  publish_found-Keeps :
      (event_id category_id : ℕ) (req : PublishEventRequest) (event : Event)
      → event.tenant_id ≡ t
      → Keeps t (publish_found event_id category_id req event)
  publish_found-Keeps event_id category_id req event own =
      attempt-Keeps_given t (All (IsOwn t)) (new_units t event_id category_id req.quantity)
        internal_error
        (λ rows. attempt (InventoryRepo.bulk_create rows) internal_error λ _.
          attempt (put_on_sale event) internal_error λ status. respond 201 (length rows, status))
        (units-Gives event_id category_id req.quantity)
        (units-Keeps event_id category_id req.quantity) (λ e env w. refl)
        λ rows owned.
          attempt-Keeps t (InventoryRepo.bulk_create rows) internal_error
            (λ _.
              attempt (put_on_sale event) internal_error
                λ status. respond 201 (length rows, status))
            (bulk_create-Keeps t rows owned) (λ e env w. refl)
            λ _.
              attempt-Keeps t (put_on_sale event) internal_error
                (λ status. respond 201 (length rows, status)) (put_on_sale-Keeps t event own)
                (λ e env w. refl) (λ status env w. refl)

  pub publish_event-Keeps :
      (id : String) (body : Option PublishEventRequest) (ctx : Context)
      → tenant_id_from_context ext ctx ≡ some t
      → Keeps t (publish_event ext checks id body ctx)
  unfolding publish_event
  publish_event-Keeps id body ctx h =
      given-Keeps (tenant_id_from_context ext ctx) 403 "no-tenant" _ h (
        need-Keeps t (ext.parse_uuid id) 400 "invalid-event-id" _ λ event_id.
          decode-Keeps t checks.publish body _ λ req.
            need-Keeps t (ext.parse_uuid req.event_ticket_category_id) 400
              "invalid-ticket-category-id" _
              λ category_id.
                attempt-Keeps_given t (λ event. event.tenant_id ≡ t)
                  (EventRepo.get_by_id t event_id) (λ e. refuse 404 "event-not-found")
                  (publish_found event_id category_id req) (get_event-Gives event_id)
                  (get_event-Keeps event_id) (λ e env w. refl)
                  (publish_found-Keeps event_id category_id req))
