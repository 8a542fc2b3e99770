-- ===== src/Gateway/Signatures.antt =====
-- The parsing of a Stripe-Signature header against its grammar: pairs of a key and a value, joined by
-- commas.
use ticketing_backend.Prelude.{
  ℕ, ◌≡◌, refl, ap, ◌∙◌, arith, String, str_append, Bool, true, false, some, List, [], ◌∷◌, ◌++◌,
  ◌==◌, if◌then◌else◌, str_eq, All, Bool-cases, inl, inr, map, append_assoc, append-nil,
}
use ticketing_backend.Prelude.{◌↔◌, ◌⊎◌, str_eq_iff}
use Prim.Native.String.append
use Prim.Native.Char.{code}
use ticketing_backend.Prelude.Texts.{cut, split}
use ticketing_backend.Gateway.{
  take_part, take_parts, parse_stripe_signature_header, any_equal, verify_webhook_signature,
  verified, checked,
}

abbrev pub Pair : Type 0
Pair = String × String

abbrev pub render : Pair → String
render (key, value) = str_append key (String.◌∷◌ "=" value)

-- A header with these pairs.
unfoldable pub header_of : Pair → List Pair → String
header_of pair [] = render pair
header_of pair (next ∷ pairs) = str_append (render pair) (String.◌∷◌ "," (header_of next pairs))

-- Does the character with this code occur?
unfoldable pub has_char : ℕ → String → Bool
has_char sep String.[] = false
has_char sep (String.◌∷◌ c s) = if code c == sep then true else has_char sep s

-- A key and a value that the separators do not occur in; a value may have an equals sign.
abbrev pub IsPlain : Pair → Type 0
IsPlain pair =
    (has_char 61 pair.0 ≡ false) × (has_char 44 pair.0 ≡ false) × (has_char 44 pair.1 ≡ false)

cut-append :
    (key value : String)
    → has_char 61 key ≡ false
    → cut 61 (render (key, value)) ≡ some (key, value)
unfolding has_char cut
cut-append String.[] value plain = rw (append.nil (String.◌∷◌ "=" value)) refl
cut-append (String.◌∷◌ c key) value plain =
    rw (append.cons c key (String.◌∷◌ "=" value)) (elim (Bool-cases (code c == 61)) [
      | inl e ↦ absurd (ground arith)
      | inr e ↦ ground (arith, cut-append key value)
    ])

split-plain : (s : String) → has_char 44 s ≡ false → split 44 s ≡ s ∷ []
unfolding has_char split
split-plain String.[] plain = refl
split-plain (String.◌∷◌ c s) plain = elim (Bool-cases (code c == 44)) [
  | inl e ↦ absurd (ground arith)
  | inr e ↦ rw (e, split-plain s (ground arith)) refl
]

split-append :
    (s rest : String)
    → has_char 44 s ≡ false
    → split 44 (str_append s (String.◌∷◌ "," rest)) ≡ s ∷ split 44 rest
unfolding has_char split
split-append String.[] rest plain = rw (append.nil (String.◌∷◌ "," rest)) refl
split-append (String.◌∷◌ c s) rest plain = elim (Bool-cases (code c == 44)) [
  | inl e ↦ absurd (ground arith)
  | inr e ↦ rw (append.cons c s (String.◌∷◌ "," rest), e, split-append s rest (ground arith)) refl
]

has_char-append :
    (sep : ℕ) (s t : String)
    → has_char sep s ≡ false
    → has_char sep t ≡ false
    → has_char sep (str_append s t) ≡ false
unfolding has_char
has_char-append sep String.[] t hs ht = rw (append.nil t) ht
has_char-append sep (String.◌∷◌ c s) t hs ht = elim (Bool-cases (code c == sep)) [
  | inl e ↦ absurd (ground arith)
  | inr e ↦ rw (append.cons c s t, e) (has_char-append sep s t (ground arith) ht)
]

render-plain : (pair : Pair) → IsPlain pair → has_char 44 (render pair) ≡ false
unfolding has_char
render-plain (key, value) (h, hk, hv) = has_char-append 44 key (String.◌∷◌ "=" value) hk hv

split-header :
    (pair : Pair) (pairs : List Pair)
    → All IsPlain (pair ∷ pairs)
    → split 44 (header_of pair pairs) ≡ map render (pair ∷ pairs)
unfolding header_of
split-header pair [] h = split-plain (render pair) (render-plain pair h.0)
split-header pair (next ∷ pairs) h =
    rw
      (
        split-append (render pair) (header_of next pairs) (render-plain pair h.0),
        split-header next pairs h.1,
      )
      refl

-- The value of the last pair with the key t, from the one given.
unfoldable pub last_timestamp : String → List Pair → String
last_timestamp timestamp [] = timestamp
last_timestamp timestamp ((key, value) ∷ pairs) =
    last_timestamp (if str_eq key "t" then value else timestamp) pairs

-- The values of the pairs with the key v1.
unfoldable pub v1_values : List Pair → List String
v1_values [] = []
v1_values ((key, value) ∷ pairs) =
    if str_eq key "v1" then value ∷ v1_values pairs else v1_values pairs

-- Is the text one of the list's?
abbrev pub Occurs : String → List String → Type 0
Occurs s [] = ⊥
Occurs s (t ∷ ts) = (t ≡ s) ⊎ Occurs s ts

not_v1 : (key : String) → str_eq key "t" ≡ true → str_eq key "v1" ≡ false
not_v1 key t = rw ((str_eq_iff key "t").0 t) refl

take_parts_lem :
    (pairs : List Pair) (timestamp : String) (signatures : List String)
    → All IsPlain pairs
    → take_parts (map render pairs) (record { timestamp = timestamp; signatures = signatures })
      ≡ record {
        timestamp = last_timestamp timestamp pairs;
        signatures = signatures ++ v1_values pairs;
      }
unfolding take_parts last_timestamp v1_values
take_parts_lem [] timestamp signatures h = rw (append-nil signatures) refl
take_parts_lem ((key, value) ∷ pairs) timestamp signatures (plain, h) =
    ap
      (λ o.
        take_parts (map render pairs)
          (take_part o (record { timestamp = timestamp; signatures = signatures })))
      (cut-append key value plain.0)
    ∙ elim (Bool-cases (str_eq key "t")) [
      | inl t ↦ rw (t, not_v1 key t) (take_parts_lem pairs value signatures h)
      | inr other ↦ elim (Bool-cases (str_eq key "v1")) [
        | inl v1 ↦
            rw (other, v1)
              (take_parts_lem pairs timestamp (signatures ++ value ∷ []) h
                ∙ ap (λ ss. record { timestamp = last_timestamp timestamp pairs; signatures = ss })
                    (append_assoc signatures (value ∷ []) (v1_values pairs)))
        | inr neither ↦ rw (other, neither) (take_parts_lem pairs timestamp signatures h)
      ]
    ]

any_equal_iff : (s : String) (ts : List String) → (any_equal s ts ≡ true) ↔ Occurs s ts
unfolding any_equal
any_equal_iff s [] = ground arith
any_equal_iff s (t ∷ ts) = ground (arith, str_eq_iff t s, any_equal_iff s ts)

module _ (hmac_hex : String → String → String) where
  -- The payload is signed: the last timestamp is not empty, and one of the v1 values is the HMAC of
  -- the timestamp, a dot and the payload.
  abbrev pub IsSigned : String → String → List Pair → Type 0
  IsSigned secret payload pairs =
      let timestamp = last_timestamp "" pairs in
      (str_eq timestamp "" ≡ false)
      × Occurs (hmac_hex secret (str_append timestamp (str_append "." payload))) (v1_values pairs)

  verified_iff :
      (secret payload timestamp : String) (sigs : List String)
      → (verified hmac_hex secret payload
            (checked (record { timestamp = timestamp; signatures = sigs }))
          ≡ true)
        ↔ ((str_eq timestamp "" ≡ false)
            × Occurs (hmac_hex secret (str_append timestamp (str_append "." payload))) sigs)
  verified_iff secret payload timestamp [] = ground arith
  verified_iff secret payload timestamp (s ∷ sigs) = ground (
    arith,
    any_equal_iff (hmac_hex secret (str_append timestamp (str_append "." payload))) (s ∷ sigs),
  )

  -- For a header of pairs joined by commas, each a key, an equals sign and a value, with no comma
  -- in either and no equals sign in the key, VerifyWebhookSignature accepts exactly the payloads
  -- that are signed: the last value of the key t is not empty, and some value of a key v1 is the
  -- HMAC-SHA256, under the secret, of that timestamp, a dot and the payload.
  pub verify_webhook_signature_iff :
      (secret payload : String) (pair : Pair) (pairs : List Pair)
      → All IsPlain (pair ∷ pairs)
      → (verify_webhook_signature hmac_hex secret payload (header_of pair pairs) ≡ true)
        ↔ IsSigned secret payload (pair ∷ pairs)
  unfolding verify_webhook_signature parse_stripe_signature_header
  verify_webhook_signature_iff secret payload pair pairs plain =
      rw (split-header pair pairs plain, take_parts_lem (pair ∷ pairs) "" [] plain)
        (verified_iff secret payload (last_timestamp "" (pair ∷ pairs)) (v1_values (pair ∷ pairs)))
