-- ===== src/Tests/Logins.antt =====
-- A login with a wrong password, and a token that RequireAuth accepts. An identifier is written
-- in unary, and one text is the signature of one token's claims.
use ticketing_backend.Prelude.{
  ℕ, zero, suc, ◌-◌, ◌≡◌, refl, arith, Bool, true, false, String, none, some, [], ◌∷◌, ◌++◌, inl,
  inr, str_eq, str_eq_iff, Bool-cases, ap, ◌==◌, ◌&&◌, if◌then◌else◌,
}
use ticketing_backend.Prelude.Texts.{citext_eq, trim_space}
use ticketing_backend.Domain.Accounts.{User, RefreshToken}
use ticketing_backend.Sql.{select_first, count_where}
use ticketing_backend.Store.Action.{Db}
use ticketing_backend.Store.UserRepo.{has_email}
use ticketing_backend.Auth.{Externals, TokenPair, Claims, normalize_email}
use ticketing_backend.Auth.Sessions.{IsIssued}
use ticketing_backend.Http.{fault, respond}
use ticketing_backend.Http.Accounts.{Checks, Origin, LoginRequest, login_handler}
use ticketing_backend.Http.Logins.{
  IsNamed, ParsesSigned, bearing, login_uniform, access_token_names_user,
}
use ticketing_backend.Tests.Data.{tables, world_of, calm_env, fan}
use ticketing_backend.Tests.Accounts.{externals, jwt}

abbrev pub checks : Checks
checks = record {
  register = λ req. true;
  login = λ req. true;
  refresh = λ req. true;
  bootstrap = λ req. true;
  split_host_port = λ address. some address;
}

abbrev origin : Origin
origin = record { user_agent = "browser"; forwarded_for = "10.0.0.1, 10.0.0.2"; remote_addr = "" }

abbrev guess : LoginRequest
guess = record { email = "fan@example.org"; password = "guess" }

fan_found : select_first (has_email (normalize_email "fan@example.org")) tables.users ≡ some fan
unfolding select_first normalize_email citext_eq trim_space
fan_found = refl

login_uniform_example :
    let done = login_handler externals checks jwt origin (some guess) calm_env (world_of tables) in
    (done.0 ≡ fault 401 "invalid-credentials") × (done.1.db ≡ tables)
login_uniform_example =
    login_uniform externals checks jwt origin guess calm_env (world_of tables) refl refl
      (inr (fan, fan_found, inr refl))

pub unary : ℕ → String
unary zero = "u"
unary (suc n) = String.◌∷◌ "u" (unary n)

pub count_chars : String → ℕ
count_chars String.[] = 0
count_chars (String.◌∷◌ c s) = suc (count_chars s)

count-unary : (n : ℕ) → count_chars (unary n) ≡ suc n
unfolding unary count_chars
count-unary zero = refl
count-unary (suc n) = omega (arith, count-unary n)

unary_text : (n : ℕ) → str_eq (unary n) "" ≡ false
unfolding count_chars
unary_text n = elim (Bool-cases (str_eq (unary n) "")) [
  | inr e ↦ e
  | inl e ↦
      let same = ap count_chars ((str_eq_iff (unary n) "").0 e) in
      absurd (omega (arith, same, count-unary n))
]

abbrev member : User
member = record fan { id = 1 }

abbrev claims : Claims
claims = record { subject = "uu"; issued_at = 100; expires_at = 400; role = "fan"; tenant_id = "" }

abbrev is_those : Claims → Bool
is_those c =
    str_eq c.subject "uu"
    && c.issued_at == 100
    && c.expires_at == 400
    && str_eq c.role "fan"
    && str_eq c.tenant_id ""

abbrev pub unary_externals : Externals
unary_externals = record externals {
  signed_string = λ secret c. if is_those c then some "signed" else none;
  parse_with_claims = λ secret now token. some (claims, true);
  uuid_string = unary;
  parse_uuid = λ text. some (count_chars text - 1);
}

signed-claims : (c : Claims) → is_those c ≡ true → c ≡ claims
signed-claims c h =
    ground (arith, str_eq_iff c.subject "uu", str_eq_iff c.role "fan", str_eq_iff c.tenant_id "")

parses : ParsesSigned unary_externals "key"
parses c token now signed fresh = ground (arith, signed-claims c)

pub round : (id : ℕ) → unary_externals.parse_uuid (unary_externals.uuid_string id) ≡ some id
round id = rw (count-unary id) (ground arith)

abbrev pair : TokenPair
pair = record {
  access_token = "signed";
  access_token_expires_at = 400;
  refresh_token = "new";
  refresh_token_expires_at = 9100;
}

abbrev new_session : RefreshToken
new_session = record {
  id = 203;
  user_id = 1;
  token_hash = "hash of another";
  user_agent = "";
  ip_address = "";
  expires_at = 9100;
  revoked_at = none;
  created_at = 103;
}

abbrev later : Db
later = record tables { refresh_tokens = tables.refresh_tokens ++ new_session ∷ [] }

issued : IsIssued unary_externals jwt member tables later pair
unfolding unary count_where
issued = record {
  issued_at = 100;
  row = new_session;
  signed = refl;
  access_expiry = refl;
  refresh_expiry = refl;
  stored = refl;
  owner = refl;
  hash = refl;
  live = refl;
  expiry = refl;
  new = refl;
}

access_token_names_user_example :
    IsNamed unary_externals jwt {B = Bool} member claims
      (bearing "signed" "")
      (λ ctx. respond 200 true)
      calm_env
      (world_of later)
unfolding unary issued
access_token_names_user_example =
    access_token_names_user unary_externals jwt member tables later pair ""
      (λ ctx. respond 200 true) calm_env (world_of later) issued parses refl round unary_text refl
