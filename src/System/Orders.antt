-- ===== src/System/Orders.antt =====
-- The handlers of the orders and of the administration as histories of statements on
-- event_seat_inventory.
use ticketing_backend.Prelude.{
  ℕ, zero, suc, refl, arith, String, not, ◌&&◌, Option, List, [], ◌∷◌, str_eq,
}
use ticketing_backend.Domain.{Error, ok, nil_uuid}
use ticketing_backend.Domain.Amounts.{new_money}
use ticketing_backend.Domain.Events.{Event}
use ticketing_backend.Store.Action.{World, new_uuid}
use ticketing_backend.Store.EventRepo.{on_sale_of}
use ticketing_backend.Store.EventRepo
use ticketing_backend.Auth.{Externals}
use ticketing_backend.Ordering.Create.{HeldItem}
use ticketing_backend.Http.{fault, Handler, internal_error}
use ticketing_backend.Http.Gate.{
  Context, user_and_tenant, user_id_from_context, resolved_tenant_id_from_context,
  tenant_id_from_context,
}
use ticketing_backend.Http.Admin.{
  AdminChecks, create_seat_category, create_event, create_ticket_category, publish_event,
  create_venue, list_venues, new_units, new_unit, new_event, new_category, put_on_sale,
  seat_category_error, CreateSeatCategoryRequest, CreateEventRequest, CreateTicketCategoryRequest,
  PublishEventRequest, CreateVenueRequest,
}
use ticketing_backend.Http.Orders
use ticketing_backend.Http.Orders.{
  CreateOrderRequest, CreateOrderItemRequest, OrderResponse, parse_items, create_error,
  authorize_error, is_nil,
}
use ticketing_backend.System.Histories.{
  Sends, quietly, bind-Sends, attempt-Sends, need-Sends, demand-Sends, decode-Sends, json-Sends,
  end-Sends, inventory_of,
}
use ticketing_backend.System.Statements.{
  bulk_create-Sends, get_event-Sends, create_event-Sends, create_category-Sends,
  create_seat_category-Sends, create_venue-Sends, list_venues-Sends,
}
use ticketing_backend.System.OrderStatements.{get_order-Sends, list_by_user-Sends}
use ticketing_backend.System.Checkouts.{checkout-Sends, authorize-Sends}

module _ (ext : Externals) where
  create_error-Sends : (e : Error) → Sends inventory_of (create_error e)
  create_error-Sends e = quietly inventory_of λ env w. ground arith

  authorize_error-Sends : (e : Error) → Sends inventory_of (authorize_error e)
  authorize_error-Sends e = quietly inventory_of λ env w. ground arith

  user_and_tenant-Sends :
      {B : Type 0} (ctx : Context) {next : ℕ → ℕ → Handler World B}
      → ((user t : ℕ) → Sends inventory_of (next user t))
      → Sends inventory_of (user_and_tenant ext ctx next)
  unfolding user_and_tenant
  user_and_tenant-Sends ctx h =
      need-Sends inventory_of (user_id_from_context ext ctx) _ _
        λ user. need-Sends inventory_of (resolved_tenant_id_from_context ctx) _ _ λ t. h user t

  parse_items-Sends :
      (items : List CreateOrderItemRequest) {next : List HeldItem → Handler World OrderResponse}
      → ((held : List HeldItem) → Sends inventory_of (next held))
      → Sends inventory_of (parse_items ext items next)
  unfolding parse_items
  parse_items-Sends [] h = h []
  parse_items-Sends (it ∷ its) h = need-Sends inventory_of (ext.parse_uuid it.inventory_id) _ _ λ i.
      need-Sends inventory_of (ext.parse_uuid it.hold_token) _ _
        λ k. parse_items-Sends its λ held. h (record { inventory_id = i; hold_token = k } ∷ held)

  pub create-Sends :
      (ctx : Context) (body : Option CreateOrderRequest)
      → Sends inventory_of (Orders.create ext ctx body)
  unfolding Orders.create
  create-Sends ctx body = user_and_tenant-Sends ctx λ user t. json-Sends inventory_of body λ req.
      demand-Sends inventory_of (not (str_eq req.idempotency_key "") && not (is_nil req.items)) _ _
        (parse_items-Sends req.items λ items.
          attempt-Sends inventory_of (checkout-Sends t user req.idempotency_key items)
            create_error-Sends λ order. end-Sends inventory_of _)

  pub authorize_page-Sends :
      (ctx : Context) (id : String) → Sends inventory_of (Orders.authorize ext ctx id)
  unfolding Orders.authorize
  authorize_page-Sends ctx id = user_and_tenant-Sends ctx λ user t.
      need-Sends inventory_of (ext.parse_uuid id) _ _ λ order.
        attempt-Sends inventory_of (authorize-Sends t order) authorize_error-Sends
          λ secret. end-Sends inventory_of _

  pub list_orders-Sends : (ctx : Context) → Sends inventory_of (Orders.list ext ctx)
  unfolding Orders.list
  list_orders-Sends ctx = user_and_tenant-Sends ctx λ user t.
      attempt-Sends inventory_of (list_by_user-Sends t user 50 0) (λ e. end-Sends inventory_of _)
        λ orders. end-Sends inventory_of _

  pub get_page-Sends : (ctx : Context) (id : String) → Sends inventory_of (Orders.get ext ctx id)
  unfolding Orders.get
  get_page-Sends ctx id = user_and_tenant-Sends ctx λ user t.
      need-Sends inventory_of (ext.parse_uuid id) _ _ λ order.
        attempt-Sends inventory_of (get_order-Sends t order) (λ e. end-Sends inventory_of _)
          λ o. end-Sends inventory_of _

new_units-Sends : (t e c n : ℕ) → Sends inventory_of (new_units t e c n)
unfolding new_units
new_units-Sends t e c zero = end-Sends inventory_of (ok [])
new_units-Sends t e c (suc n) =
    bind-Sends inventory_of (quietly inventory_of {m = new_uuid} λ env w. refl) λ id.
      bind-Sends inventory_of (new_units-Sends t e c n)
        λ rest. end-Sends inventory_of (ok (new_unit t e c id ∷ rest))

put_on_sale-Sends : (event : Event) → Sends inventory_of (put_on_sale event)
unfolding put_on_sale EventRepo.update EventRepo.update_event
put_on_sale-Sends event = quietly inventory_of λ env w. ground arith

seat_category_error-Sends : (e : Error) → Sends inventory_of (seat_category_error e)
seat_category_error-Sends e = quietly inventory_of λ env w. ground arith

module _ (ext : Externals) (checks : AdminChecks) where
  internal-Sends :
      {B : Type 0} (e : Error) → Sends inventory_of (internal_error {W = World} {B = B} e)
  internal-Sends e = end-Sends inventory_of (fault 500 "internal-error")

  pub seat_category-Sends :
      (body : Option CreateSeatCategoryRequest) (ctx : Context)
      → Sends inventory_of (create_seat_category ext checks body ctx)
  unfolding create_seat_category
  seat_category-Sends body ctx = need-Sends inventory_of (tenant_id_from_context ext ctx) _ _ λ t.
      decode-Sends inventory_of checks.seat_category body λ req.
        attempt-Sends inventory_of
          (create_seat_category-Sends
            (record { id = nil_uuid; tenant_id = t; name = req.name; color = req.color }))
          seat_category_error-Sends λ sc. end-Sends inventory_of _

  pub new_event-Sends :
      (body : Option CreateEventRequest) (ctx : Context)
      → Sends inventory_of (create_event ext checks body ctx)
  unfolding create_event
  new_event-Sends body ctx = need-Sends inventory_of (tenant_id_from_context ext ctx) _ _ λ t.
      decode-Sends inventory_of checks.event body λ req.
        need-Sends inventory_of (ext.parse_uuid req.venue_id) _ _ λ venue.
          attempt-Sends inventory_of (create_event-Sends (new_event ext checks t venue req))
            internal-Sends λ event. end-Sends inventory_of _

  pub ticket_category-Sends :
      (id : String) (body : Option CreateTicketCategoryRequest) (ctx : Context)
      → Sends inventory_of (create_ticket_category ext checks id body ctx)
  unfolding create_ticket_category
  ticket_category-Sends id body ctx =
      need-Sends inventory_of (tenant_id_from_context ext ctx) _ _ λ t.
        need-Sends inventory_of (ext.parse_uuid id) _ _ λ event.
          decode-Sends inventory_of checks.ticket_category body λ req.
            need-Sends inventory_of (ext.parse_uuid req.seat_category_id) _ _ λ sc.
              need-Sends inventory_of (new_money req.price_cents req.currency) _ _ λ price.
                attempt-Sends inventory_of
                  (create_category-Sends
                    (new_category ext checks t event sc price req.max_per_order))
                  internal-Sends λ category. end-Sends inventory_of _

  pub publish-Sends :
      (id : String) (body : Option PublishEventRequest) (ctx : Context)
      → Sends inventory_of (publish_event ext checks id body ctx)
  unfolding publish_event
  publish-Sends id body ctx = need-Sends inventory_of (tenant_id_from_context ext ctx) _ _ λ t.
      need-Sends inventory_of (ext.parse_uuid id) _ _ λ e.
        decode-Sends inventory_of checks.publish body λ req.
          need-Sends inventory_of (ext.parse_uuid req.event_ticket_category_id) _ _ λ c.
            attempt-Sends inventory_of (get_event-Sends t e)
              (λ _. end-Sends inventory_of (fault 404 "event-not-found"))
              λ event.
                attempt-Sends inventory_of (new_units-Sends t e c req.quantity) internal-Sends
                  λ rows. attempt-Sends inventory_of (bulk_create-Sends rows) internal-Sends λ _.
                    attempt-Sends inventory_of (put_on_sale-Sends event) internal-Sends
                      λ status. end-Sends inventory_of _

  pub venue-Sends :
      (body : Option CreateVenueRequest) (ctx : Context)
      → Sends inventory_of (create_venue ext checks body ctx)
  unfolding create_venue
  venue-Sends body ctx = need-Sends inventory_of (tenant_id_from_context ext ctx) _ _ λ t.
      decode-Sends inventory_of checks.venue body λ req.
        attempt-Sends inventory_of
          (create_venue-Sends (record {
            id = nil_uuid;
            tenant_id = t;
            name = req.name;
            address = req.address;
            city = req.city;
            country = req.country;
            timezone = req.timezone;
            capacity = req.capacity;
          }))
          internal-Sends λ venue. end-Sends inventory_of _

  pub venues-Sends : (ctx : Context) → Sends inventory_of (list_venues ext checks ctx)
  unfolding list_venues
  venues-Sends ctx = need-Sends inventory_of (tenant_id_from_context ext ctx) _ _ λ t.
      attempt-Sends inventory_of (list_venues-Sends t 50 0) internal-Sends
        λ venues. end-Sends inventory_of _
