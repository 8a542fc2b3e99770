-- ===== src/Tests/Webhooks.antt =====
-- A signed event for the order, and the same event under another signature.
use ticketing_backend.Prelude.{ℕ, ◌≡◌, refl, String, some, [], ◌∷◌, str_eq, if◌then◌else◌}
use ticketing_backend.Webhook.{
  Externals, Request, StripeWebhookEvent, answer, confirmed, verified, stripe,
}
use ticketing_backend.Webhook.Answers.{StripeOutcome, stripe_captures}
use ticketing_backend.Webhook.Delivery.{metadata_text, stripe-authorize_payment}
use ticketing_backend.Sql.{select_first}
use ticketing_backend.Store.Action.{World, next}
use ticketing_backend.Ordering.Payment.{intent_metadata, new_payment, authorize_payment}
use ticketing_backend.Ordering.Confirm.{confirm_payment}
use ticketing_backend.Tests.Data.{order, tables, unpaid_tables, world_of, calm_env}
use ticketing_backend.Tests.Logins.{unary_externals, round}
use ticketing_backend.Tests.Payments.{authorized}

abbrev succeeded : StripeWebhookEvent
succeeded = record { type = "payment_intent.succeeded"; metadata = λ key. key }

abbrev pub externals : Externals
externals = record {
  verify_webhook_signature = λ body signature. str_eq signature "good";
  unmarshal = λ body. some succeeded;
  parse_uuid = λ text. if str_eq text "tenant_id" then some 1 else some 30;
}

abbrev signed_by : String → Request
signed_by signature = record { body = some "event"; signature = signature }

stripe_captures_example : StripeOutcome externals (signed_by "good") calm_env (world_of tables)
stripe_captures_example = stripe_captures externals (signed_by "good") calm_env (world_of tables)

forged_is_refused :
    stripe externals (signed_by "bad") calm_env (world_of tables)
    ≡ (answer 400 "invalid-signature", world_of tables)
unfolding stripe verified
forged_is_refused = refl

abbrev captured : StripeWebhookEvent
captured = record {
  type = "payment_intent.succeeded";
  metadata = metadata_text unary_externals.uuid_string (intent_metadata order);
}

abbrev provider : Externals
provider = record externals {
  unmarshal = λ body. some captured;
  parse_uuid = unary_externals.parse_uuid;
}

-- The world that AuthorizePayment leaves.
abbrev authorized_world : World
authorized_world = (authorize_payment 1 30 calm_env (world_of unpaid_tables)).1

stripe-authorize_payment_example :
    (id : ℕ) × (intent : String) × (authorized_world.db.payments
      ≡ new_payment id 1 order intent ∷ [])
    × (stripe provider (signed_by "good") calm_env authorized_world ≡ (
        let (r, w2) = confirm_payment 1 30 id calm_env (next (next authorized_world)) in
        (confirmed r, w2)))
unfolding select_first
stripe-authorize_payment_example =
    stripe-authorize_payment provider (signed_by "good") unary_externals.uuid_string 1 30 calm_env
      calm_env (world_of unpaid_tables) {body = "event"} {secret = "secret"} {event = captured}
      {order = order} round authorized refl refl refl refl refl (λ key. refl) refl refl
