-- ===== src/Tests/Gateways.antt =====
-- A header with an old and a new signature, under a function that stands for the HMAC.
use ticketing_backend.Prelude.{◌≡◌, ◌↔◌, refl, true, String, str_append, List, [], ◌∷◌}
use ticketing_backend.Prelude.Texts.{split, cut}
use ticketing_backend.Gateway.{verify_webhook_signature}
use ticketing_backend.Gateway.Signatures.{
  Pair, IsSigned, header_of, has_char, verify_webhook_signature_iff,
}

abbrev sign : String → String → String
sign secret message = str_append message secret

abbrev stamp : Pair
stamp = ("t", "171")

abbrev values : List Pair
values = ("v0", "x") ∷ ("v1", "old") ∷ ("v1", "171.bodykey") ∷ []

header : header_of stamp values ≡ "t=171,v0=x,v1=old,v1=171.bodykey"
unfolding header_of
header = refl

accepts : verify_webhook_signature sign "key" "body" "t=171,v0=x,v1=old,v1=171.bodykey" ≡ true
unfolding verify_webhook_signature split cut
accepts = refl

verify_webhook_signature_iff_example :
    (verify_webhook_signature sign "key" "body" (header_of stamp values) ≡ true)
    ↔ IsSigned sign "key" "body" (stamp ∷ values)
unfolding has_char
verify_webhook_signature_iff_example =
    verify_webhook_signature_iff sign "key" "body" stamp values
      ((refl, refl, refl), ((refl, refl, refl), ((refl, refl, refl), ((refl, refl, refl), tt))))
