-- ===== src/Process.antt =====
-- cmd/api/main.go and cmd/worker/main.go: what the processes are made of. Logging is left out.
pub mod Startup
pub mod Migrate
use ticketing_backend.Prelude.{
  ℕ, ◌*◌, String, str_eq, Bool, Option, none, some, ◌⊎◌, inl, inr, if◌then◌else◌, List, ◌++◌, [],
  ◌∷◌,
}
use ticketing_backend.Domain.{EmailMessage}
use ticketing_backend.Redis.{Client}
use ticketing_backend.Holding
use ticketing_backend.Auth
use ticketing_backend.Webhook
use ticketing_backend.Gateway.{verify_webhook_signature, verify_mock_signature}
use ticketing_backend.Gateway.Stripe.{
  StripeGateway, new_stripe_gateway, StripeError, Transport, create_stripe_intent, refund_stripe,
}
use ticketing_backend.Store.Action.{Metadata, Env}
use ticketing_backend.Email.{SmtpSender, SendMail, send_smtp, send_console}
use ticketing_backend.Config.{StripeConfig, EmailConfig, Config}
use ticketing_backend.Http.Accounts.{Checks}
use ticketing_backend.Http.Admin.{AdminChecks}
use ticketing_backend.Http.Api.{RouterDeps}

abbrev pub second : ℕ
second = 1000000000

abbrev pub minute : ℕ
minute = 60 * second

-- DefaultConfig of internal/service/inventory/config.go
unfoldable pub default_config : Holding.Config
default_config = record {
  hold_duration = 5 * minute;
  lock_ttl = 3 * second;
  admission_ttl = 10 * minute;
  hold_rate_limit = 10;
  hold_rate_limit_window = minute;
}

-- The payment gateway: Stripe's, or the mock with its secret.
pub data Gateway : Type 0 where
  stripe : StripeGateway → Gateway
  mock : String → Gateway

unfoldable pub choose_gateway : StripeConfig → Gateway
unfolding new_stripe_gateway
choose_gateway cfg =
    if str_eq cfg.secret_key ""
    then Gateway.mock cfg.webhook_secret
    else Gateway.stripe (new_stripe_gateway cfg.secret_key cfg.webhook_secret)

-- VerifyWebhookSignature of the chosen gateway
unfoldable pub verify : (String → String → String) → Gateway → String → String → Bool
verify hmac_hex (Gateway.stripe g) payload header =
    verify_webhook_signature hmac_hex g.webhook_secret payload header
verify hmac_hex (Gateway.mock secret) payload header =
    verify_mock_signature hmac_hex secret payload header

abbrev texts_of : (ℕ → String) → Metadata → List (String × String)
texts_of text [] = []
texts_of text ((k, id) ∷ metadata) = (k, text id) ∷ texts_of text metadata

abbrev succeeded : {A : Type 0} → StripeError ⊎ A → Option A
succeeded (inl e) = none
succeeded (inr a) = some a

-- The world's answers where the gateway is Stripe's, from the client's answers at each tick. The
-- last argument of the refund is the reason that the order service gives.
unfoldable pub with_stripe : (ℕ → String) → StripeGateway → (ℕ → Transport) → Env → Env
unfolding create_stripe_intent refund_stripe
with_stripe uuid_string g transport env = record env {
  create_intent = λ n amount key metadata.
      succeeded (create_stripe_intent g (transport n) amount key (texts_of uuid_string metadata));
  refund = λ n provider_payment_id amount. succeeded (
      refund_stripe g (transport n) provider_payment_id amount
        "inventory hold expired before fulfillment could be confirmed");
}

-- The sender of mail: SMTP, or the console.
pub data Sender : Type 0 where
  smtp : SmtpSender → Sender
  console : Sender

unfoldable pub choose_sender : EmailConfig → Sender
choose_sender cfg =
    if str_eq cfg.host ""
    then Sender.console
    else Sender.smtp (record {
      host = cfg.host;
      port = cfg.port;
      username = cfg.username;
      password = cfg.password;
      from_address = cfg.from;
    })

-- Send of the chosen sender: whether it returns no error, and what the console has shown.
unfoldable pub send_with :
    (SendMail → Bool) → Sender → EmailMessage → List EmailMessage → Bool × List EmailMessage
unfolding send_smtp send_console
send_with send_mail (Sender.smtp s) msg sent = (send_smtp s send_mail msg, sent)
send_with send_mail Sender.console msg sent = send_console msg sent

-- The router's dependencies, from the configuration and the packages that the handlers call.
module _ {S : Type 0} (client : Client S) (externals : Auth.Externals) (checks : Checks)
    (admin_checks : AdminChecks) (hmac_hex : String → String → String)
    (unmarshal : String → Option Webhook.StripeWebhookEvent) where
  unfoldable pub router_deps : Config → RouterDeps S
  unfolding choose_gateway verify default_config
  router_deps cfg = record {
    externals = externals;
    webhook_externals = record {
      verify_webhook_signature = verify hmac_hex (choose_gateway cfg.stripe);
      unmarshal = unmarshal;
      parse_uuid = externals.parse_uuid;
    };
    checks = checks;
    admin_checks = admin_checks;
    client = client;
    inventory = default_config;
    jwt = cfg.jwt;
    bootstrap_secret = cfg.bootstrap.secret;
  }
