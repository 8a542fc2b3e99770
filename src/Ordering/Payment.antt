-- ===== src/Ordering/Payment.antt =====
-- Service.AuthorizePayment.
use ticketing_backend.Prelude.{ℕ, suc, String, Option, none, some, ◌++◌, [], ◌∷◌}
use ticketing_backend.Domain.Amounts.{Money}
use ticketing_backend.Domain.{
  Error, Result, ok, err, Order, OrderStatus, is_pending, Payment, PaymentProvider, PaymentStatus,
}
use ticketing_backend.Store.OrderRepo
use ticketing_backend.Store.PaymentRepo
use ticketing_backend.Store.Action.{
  GatewayCall, Metadata, Action, pure, guard, ◌>>=◌, ◌>>◌, new_uuid,
}

abbrev answered : {A : Type 0} → Option A → Result A
answered none = err Error.other
answered (some a) = ok a

-- PaymentGateway.CreateIntent: the request is recorded, and the answer is the provider's.
unfoldable pub create_intent : Money → String → Metadata → Action (String × String)
create_intent amount key metadata env w = (
  answered (env.create_intent w.tick amount key metadata),
  record w {
    tick = suc w.tick;
    gateway_calls = w.gateway_calls ++ GatewayCall.create_intent amount key metadata ∷ [];
  },
)

-- PaymentGateway.Refund
unfoldable pub refund : String → Money → Action String
refund provider_payment_id amount env w = (
  answered (env.refund w.tick provider_payment_id amount),
  record w {
    tick = suc w.tick;
    gateway_calls = w.gateway_calls ++ GatewayCall.refund provider_payment_id amount ∷ [];
  },
)

-- What the webhook finds the order by.
abbrev pub intent_metadata : Order → Metadata
intent_metadata order = ("order_id", order.id) ∷ ("tenant_id", order.tenant_id) ∷ []

abbrev pub new_payment : ℕ → ℕ → Order → String → Payment
new_payment id tenant_id order provider_payment_id = record {
  id = id;
  tenant_id = tenant_id;
  order_id = order.id;
  provider = PaymentProvider.stripe;
  provider_payment_id = provider_payment_id;
  status = PaymentStatus.pending;
  amount = order.total;
  idempotency_key = order.idempotency_key;
  raw_response = none;
}

unfoldable pub authorize_payment : ℕ → ℕ → Action String
unfolding create_intent
authorize_payment tenant_id order_id = do
  order ← OrderRepo.get_by_id tenant_id order_id
  guard (is_pending order.status) Error.invalid_input
  intent ← create_intent order.total order.idempotency_key (intent_metadata order)
  id ← new_uuid
  PaymentRepo.create (new_payment id tenant_id order intent.0)
  OrderRepo.update_status tenant_id order.id OrderStatus.awaiting_payment
  pure intent.1
