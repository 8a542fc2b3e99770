-- ===== src/Gateway/Stripe.antt =====
-- internal/platform/payment/stripe.go: the requests that StripeGateway sends, and what it makes of
-- the answers.
use ticketing_backend.Prelude.{
  ℕ, ◌≡◌, arith, ◌⊎◌, inl, inr, String, str_append, str_eq, Bool, Option, none, some, List, [], ◌∷◌,
  if◌then◌else◌, ◌==◌,
}
use ticketing_backend.Prelude.Texts.{to_lower}
use ticketing_backend.Prelude.Decimals.{format_int}
use ticketing_backend.Domain.Amounts.{Money}

-- url.Values with one value for each key.
abbrev pub Form : Type 0
Form = List (String × String)

-- Values.Set
unfoldable pub set : String → String → Form → Form
set key value [] = (key, value) ∷ []
set key value ((k, v) ∷ form) =
    let rest = set key value form in if str_eq k key then (key, value) ∷ form else (k, v) ∷ rest

pub record StripeErrorBody : Type 0 where
  pub message : String
  pub type : String

pub record StripePaymentIntentResponse : Type 0 where
  pub id : String
  pub client_secret : String
  pub error : Option StripeErrorBody

pub record StripeRefundResponse : Type 0 where
  pub id : String
  pub error : Option StripeErrorBody

-- A POST request: its URL, headers and body.
pub record StripeRequest : Type 0 where
  pub url : String
  pub headers : List (String × String)
  pub body : String

-- The status code, and the body where it can be read.
pub record HttpResponse : Type 0 where
  pub status_code : ℕ
  pub body : Option String

-- net/http, net/url and encoding/json: whether a URL parses, what a request is answered with, the
-- encoding of a form, and the decoding of the two responses.
pub record Transport : Type 0 where
  pub is_url : String → Bool
  pub send : StripeRequest → Option HttpResponse
  pub encode : Form → String
  pub unmarshal_intent : String → Option StripePaymentIntentResponse
  pub unmarshal_refund : String → Option StripeRefundResponse

-- The errors of `do`.
pub data StripeError : Type 0 where
  build_request : StripeError
  request_failed : StripeError
  read_response : StripeError
  parse_response : StripeError
  reported : StripeErrorBody → StripeError
  bad_status : ℕ → StripeError

pub record StripeGateway : Type 0 where
  pub secret_key : String
  pub webhook_secret : String
  pub base_url : String

unfoldable pub new_stripe_gateway : String → String → StripeGateway
new_stripe_gateway secret_key webhook_secret = record {
  secret_key = secret_key;
  webhook_secret = webhook_secret;
  base_url = "https://api.stripe.com";
}

-- The form of CreateIntent. `metadata` is the Go map as a list of its entries, in the order that
-- the loop takes them.
unfoldable pub set_metadata : List (String × String) → Form → Form
unfolding set
set_metadata [] form = form
set_metadata ((k, v) ∷ metadata) form =
    set_metadata metadata (set (str_append "metadata[" (str_append k "]")) v form)

unfoldable pub intent_form : Money → List (String × String) → Form
unfolding set set_metadata format_int to_lower
intent_form amount metadata = set_metadata metadata (
    set "automatic_payment_methods[enabled]" "true"
      (set "currency" (to_lower amount.currency) (set "amount" (format_int amount.cents) [])))

-- The form of Refund.
unfoldable pub refund_form : String → Money → String → Form
unfolding set format_int
refund_form provider_payment_id amount reason =
    let form =
      set "amount" (format_int amount.cents) (set "payment_intent" provider_payment_id []) in
    if str_eq reason "" then form else set "metadata[reason]" reason form

-- The headers that `do` sets.
unfoldable pub stripe_headers : StripeGateway → String → List (String × String)
stripe_headers g idempotency_key =
    ("Content-Type", "application/x-www-form-urlencoded")
    ∷ ("Authorization", str_append "Bearer " g.secret_key)
    ∷ (if str_eq idempotency_key "" then [] else ("Idempotency-Key", idempotency_key) ∷ [])

module _ {R : Type 0} (unmarshal : String → Option R)
    (stripe_error : R → Option StripeErrorBody) where
  abbrev accepted : ℕ → R → Option StripeErrorBody → StripeError ⊎ R
  accepted status out (some e) = inl (StripeError.reported e)
  accepted status out none = if status == 200 then inr out else inl (StripeError.bad_status status)

  abbrev decoded : ℕ → Option R → StripeError ⊎ R
  decoded status none = inl StripeError.parse_response
  decoded status (some out) = accepted status out (stripe_error out)

  abbrev received : ℕ → Option String → StripeError ⊎ R
  received status none = inl StripeError.read_response
  received status (some body) = decoded status (unmarshal body)

  -- What `do` makes of the answer of the client.
  unfoldable pub read_answer : Option HttpResponse → StripeError ⊎ R
  read_answer none = inl StripeError.request_failed
  read_answer (some response) = received response.status_code response.body

  -- StripeGateway.do
  unfoldable pub post : StripeGateway → Transport → String → Form → String → StripeError ⊎ R
  unfolding stripe_headers read_answer
  post g transport path form idempotency_key =
      let url = str_append g.base_url path in
      if transport.is_url url
      then read_answer (
          transport.send (record {
            url = url;
            headers = stripe_headers g idempotency_key;
            body = transport.encode form;
          }))
      else inl StripeError.build_request

  -- `do` returns a response only where it was decoded from a body with status 200 and reports no
  -- error.
  pub received-IsClean :
      (status : ℕ) (text : String) (out : R)
      → received status (some text) ≡ inr out
      → (status ≡ 200) × (unmarshal text ≡ some out) × (stripe_error out ≡ none)
  received-IsClean status text out h = ground arith

abbrev intent_answer : StripeError ⊎ StripePaymentIntentResponse → StripeError ⊎ (String × String)
intent_answer (inl e) = inl e
intent_answer (inr parsed) = inr (parsed.id, parsed.client_secret)

abbrev refund_answer : StripeError ⊎ StripeRefundResponse → StripeError ⊎ String
refund_answer (inl e) = inl e
refund_answer (inr parsed) = inr parsed.id

module _ (g : StripeGateway) (transport : Transport) where
  -- StripeGateway.CreateIntent
  unfoldable pub create_stripe_intent :
      Money → String → List (String × String) → StripeError ⊎ (String × String)
  unfolding intent_form post
  create_stripe_intent amount idempotency_key metadata = intent_answer (
      post transport.unmarshal_intent (λ r. r.error) g transport "/v1/payment_intents"
        (intent_form amount metadata) idempotency_key)

  -- StripeGateway.Refund
  unfoldable pub refund_stripe : String → Money → String → StripeError ⊎ String
  unfolding refund_form post
  refund_stripe provider_payment_id amount reason = refund_answer (
      post transport.unmarshal_refund (λ r. r.error) g transport "/v1/refunds"
        (refund_form provider_payment_id amount reason) "")
