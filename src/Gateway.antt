-- ===== src/Gateway.antt =====
-- internal/platform/payment: the check of a webhook's signature, and the gateway that stands in
-- for a provider. HMAC-SHA256 in hexadecimal is a parameter: of a secret and a message.
pub mod Signatures
pub mod Stripe
use ticketing_backend.Prelude.{
  ℕ, String, str_append, Bool, true, false, ◌&&◌, ◌||◌, not, Option, none, some, List, [], ◌∷◌,
  ◌++◌, if◌then◌else◌, str_eq,
}
use ticketing_backend.Prelude.Texts.{cut, split}

-- The named results of parseStripeSignatureHeader.
pub record Parsed : Type 0 where
  pub timestamp : String
  pub signatures : List String

-- The switch over the key.
abbrev pub take_pair : String × String → Parsed → Parsed
take_pair (key, value) parsed =
    if str_eq key "t"
    then record parsed { timestamp = value }
    else if str_eq key "v1"
    then record parsed { signatures = parsed.signatures ++ value ∷ [] }
    else parsed

abbrev pub take_part : Option (String × String) → Parsed → Parsed
take_part none parsed = parsed
take_part (some kv) parsed = take_pair kv parsed

-- The loop over the parts; 61 is the equals sign.
unfoldable pub take_parts : List String → Parsed → Parsed
take_parts [] parsed = parsed
take_parts (part ∷ parts) parsed = take_parts parts (take_part (cut 61 part) parsed)

abbrev pub nothing : Parsed
nothing = record { timestamp = ""; signatures = [] }

abbrev is_nil : List String → Bool
is_nil [] = true
is_nil (s ∷ ss) = false

abbrev pub checked : Parsed → Option Parsed
checked parsed =
    if str_eq parsed.timestamp "" || is_nil parsed.signatures then none else some parsed

-- parseStripeSignatureHeader; 44 is the comma.
unfoldable pub parse_stripe_signature_header : String → Option Parsed
unfolding take_parts
parse_stripe_signature_header header = checked (take_parts (split 44 header) nothing)

-- The loop that compares the signatures, with hmac.Equal.
unfoldable pub any_equal : String → List String → Bool
any_equal expected [] = false
any_equal expected (sig ∷ sigs) = if str_eq sig expected then true else any_equal expected sigs

module _ (hmac_hex : String → String → String) where
  abbrev pub verified : String → String → Option Parsed → Bool
  verified secret payload none = false
  verified secret payload (some parsed) =
      any_equal (hmac_hex secret (str_append parsed.timestamp (str_append "." payload)))
        parsed.signatures

  -- StripeGateway.VerifyWebhookSignature: whether it returns nil
  unfoldable pub verify_webhook_signature : String → String → String → Bool
  unfolding parse_stripe_signature_header any_equal
  verify_webhook_signature secret payload header =
      verified secret payload (parse_stripe_signature_header header)

  -- MockGateway.VerifyWebhookSignature
  unfoldable pub verify_mock_signature : String → String → String → Bool
  verify_mock_signature secret payload header = str_eq (hmac_hex secret payload) header

-- MockGateway: the identifiers of the intents that it made. A call comes with the texts of the
-- identifiers that uuid.NewString gives it.
abbrev pub Intents : Type 0
Intents = List String

-- MockGateway.CreateIntent: the intent's identifier and its client secret
unfoldable pub create_mock_intent : String → String → Intents → (String × String) × Intents
create_mock_intent first second intents =
    let id = str_append "pi_mock_" first in
    ((id, str_append id (str_append "_secret_" second)), id ∷ intents)

-- MockGateway.Refund
unfoldable pub refund_mock : String → String → Intents → Option String
unfolding any_equal
refund_mock first provider_payment_id intents =
    if any_equal provider_payment_id intents then some (str_append "re_mock_" first) else none
