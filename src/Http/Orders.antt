-- ===== src/Http/Orders.antt =====
-- internal/handler/http/order.go: the orders of a fan.
use ticketing_backend.Prelude.{
  ℕ, String, Bool, true, false, not, ◌&&◌, Option, List, [], ◌∷◌, map, str_eq,
}
use ticketing_backend.Domain.{Error, Order, OrderStatus}
use ticketing_backend.Store.Action.{World}
use ticketing_backend.Store.OrderRepo
use ticketing_backend.Ordering.Create.{HeldItem, create_order}
use ticketing_backend.Ordering.Payment.{authorize_payment}
use ticketing_backend.Auth.{Externals}
use ticketing_backend.Http.{
  Handler, need, demand, attempt, refuse, respond, internal_error, decode_json_body,
}
use ticketing_backend.Http.Gate.{Context, user_and_tenant}

pub record CreateOrderItemRequest : Type 0 where
  pub inventory_id : String
  pub hold_token : String

pub record CreateOrderRequest : Type 0 where
  pub idempotency_key : String
  pub items : List CreateOrderItemRequest

-- orderResponse
pub record OrderResponse : Type 0 where
  pub id : ℕ
  pub status : OrderStatus
  pub subtotal_cents : ℕ
  pub fees_cents : ℕ
  pub total_cents : ℕ
  pub currency : String
  pub expires_at : Option ℕ
  pub created_at : ℕ

abbrev pub order_response : Order → OrderResponse
order_response o = record {
  id = o.id;
  status = o.status;
  subtotal_cents = o.subtotal.cents;
  fees_cents = o.fees.cents;
  total_cents = o.total.cents;
  currency = o.total.currency;
  expires_at = o.expires_at;
  created_at = o.created_at;
}

abbrev pub is_nil : List CreateOrderItemRequest → Bool
is_nil [] = true
is_nil (it ∷ its) = false

abbrev pub create_error : Error → Handler World OrderResponse
create_error Error.expired = refuse 409 "hold-invalid"
create_error Error.invalid_input = refuse 400 "invalid-order"
create_error e = internal_error e

abbrev pub authorize_error : Error → Handler World String
authorize_error Error.invalid_input = refuse 409 "wrong-order-status"
authorize_error e = internal_error e

module _ (ext : Externals) where
  -- The loop of Create over the items of the request
  unfoldable pub parse_items :
      List CreateOrderItemRequest
      → (List HeldItem → Handler World OrderResponse)
      → Handler World OrderResponse
  parse_items [] next = next []
  parse_items (it ∷ its) next =
      need (ext.parse_uuid it.inventory_id) 400 "invalid-inventory-id" λ inventory_id.
        need (ext.parse_uuid it.hold_token) 400 "invalid-hold-token" λ hold_token.
          parse_items its
            λ items. next (record { inventory_id = inventory_id; hold_token = hold_token } ∷ items)

  -- Create
  unfoldable pub create : Context → Option CreateOrderRequest → Handler World OrderResponse
  unfolding user_and_tenant decode_json_body parse_items
  create ctx body = user_and_tenant ext ctx λ user_id tenant_id. decode_json_body body λ req.
      demand (not (str_eq req.idempotency_key "") && not (is_nil req.items)) 400 "invalid-request" (
        parse_items req.items λ items.
          attempt (create_order tenant_id user_id req.idempotency_key items) create_error
            λ order. respond 201 (order_response order))

  -- Authorize: the client secret
  unfoldable pub authorize : Context → String → Handler World String
  unfolding user_and_tenant
  authorize ctx id = user_and_tenant ext ctx λ user_id tenant_id.
      need (ext.parse_uuid id) 400 "invalid-order-id" λ order_id.
        attempt (authorize_payment tenant_id order_id) authorize_error λ secret. respond 200 secret

  -- List
  unfoldable pub list : Context → Handler World (List OrderResponse)
  unfolding user_and_tenant
  list ctx = user_and_tenant ext ctx λ user_id tenant_id.
      attempt (OrderRepo.list_by_user tenant_id user_id 50 0) internal_error
        λ orders. respond 200 (map order_response orders)

  -- Get
  unfoldable pub get : Context → String → Handler World OrderResponse
  unfolding user_and_tenant
  get ctx id = user_and_tenant ext ctx λ user_id tenant_id.
      need (ext.parse_uuid id) 400 "invalid-order-id" λ order_id.
        attempt (OrderRepo.get_by_id tenant_id order_id) (λ e. refuse 404 "order-not-found")
          λ order. respond 200 (order_response order)
