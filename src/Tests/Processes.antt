-- ===== src/Tests/Processes.antt =====
-- A Stripe account whose answers are written out, and the texts that are sent.
use ticketing_backend.Prelude.{
  ◌≡◌, refl, ◌-◌, ◌^◌, String, true, none, some, inl, inr, List, [], ◌∷◌,
}
use ticketing_backend.Prelude.Texts.{to_lower}
use ticketing_backend.Prelude.Decimals.{digits, print_digits, decimal, format_int}
use ticketing_backend.Domain.Amounts.{Money, show_money}
use ticketing_backend.Gateway.Stripe.{
  set, set_metadata, intent_form, refund_form, stripe_headers, new_stripe_gateway, Transport,
  StripeError, read_answer, post, create_stripe_intent, refund_stripe,
}
use ticketing_backend.Email.{SmtpSender, lines, message_text}
use ticketing_backend.Process.{Gateway, choose_gateway}
use ticketing_backend.Process.Migrate.{MigratorCall, call_of}

abbrev price : Money
price = record { cents = 125000; currency = "KES" }

shows : show_money price ≡ "1250.00 KES"
unfolding show_money decimal digits print_digits
shows = refl

shows_negative : show_money (record { cents = 2 ^ 64 - 105; currency = "USD" }) ≡ "-1.-5 USD"
unfolding show_money decimal digits print_digits
shows_negative = refl

form_of_intent : intent_form price (("order_id", "7") ∷ []) ≡ (
    ("amount", "125000")
    ∷ ("currency", "kes")
    ∷ ("automatic_payment_methods[enabled]", "true")
    ∷ ("metadata[order_id]", "7")
    ∷ [])
unfolding intent_form set set_metadata format_int decimal digits print_digits to_lower
form_of_intent = refl

form_of_refund :
    refund_form "pi_1" price "" ≡ (("payment_intent", "pi_1") ∷ ("amount", "125000") ∷ [])
unfolding refund_form set format_int decimal digits print_digits
form_of_refund = refl

-- Every request is answered with the key that came with it as the body, and status 200.
abbrev key_of : List (String × String) → String
key_of (type ∷ authorization ∷ key ∷ more) = key.1
key_of headers = ""

abbrev transport : Transport
transport = record {
  is_url = λ url. true;
  send = λ request. some (record { status_code = 200; body = some (key_of request.headers) });
  encode = λ form. "";
  unmarshal_intent = λ text. some (record { id = text; client_secret = "secret"; error = none });
  unmarshal_refund = λ text. some (record {
    id = text;
    error = some (record { message = "no such intent"; type = "invalid_request_error" });
  });
}

intent_has_key :
    create_stripe_intent (new_stripe_gateway "sk" "whsec") transport price "order-7" []
    ≡ inr ("order-7", "secret")
unfolding create_stripe_intent new_stripe_gateway post read_answer stripe_headers intent_form set
    set_metadata
intent_has_key = refl

refund_reported :
    refund_stripe (new_stripe_gateway "sk" "whsec") transport "pi_1" price "expired"
    ≡ inl (
        StripeError.reported
          (record { message = "no such intent"; type = "invalid_request_error" }))
unfolding refund_stripe new_stripe_gateway post read_answer stripe_headers refund_form set
refund_reported = refl

abbrev sender : SmtpSender
sender = record {
  host = "mail";
  port = "587";
  username = "u";
  password = "p";
  from_address = "a@b.c";
}

mail_text :
    message_text sender (record { to = "f@x.y"; subject = "Hi"; body = "See you" })
    ≡ "From: a@b.c\r\nTo: f@x.y\r\nSubject: Hi\r\nMIME-Version: 1.0\r\nContent-Type: text/plain; charset=\"UTF-8\"\r\n\r\nSee you"
unfolding message_text lines
mail_text = refl

mocks : choose_gateway (record { secret_key = ""; webhook_secret = "whsec" }) ≡ Gateway.mock "whsec"
unfolding choose_gateway
mocks = refl

two_steps_down :
    call_of (record { direction = "down"; steps = 2; version = 0; path = "migrations" })
    ≡ some (MigratorCall.steps (2 ^ 64 - 2))
unfolding call_of
two_steps_down = refl
