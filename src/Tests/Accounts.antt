-- ===== src/Tests/Accounts.antt =====
-- An account and its session, under hashes and signatures that only put a word before a text.
use ticketing_backend.Prelude.{
  ◌≡◌, refl, true, none, some, List, [], ◌∷◌, str_eq, if◌then◌else◌, ◌≤◌, ◌⊎◌,
}
use ticketing_backend.Domain.{Result, ok}
use ticketing_backend.Domain.Accounts.{UserRole}
use ticketing_backend.Sql.{count_where, update_where, select_first}
use ticketing_backend.Store.Action.{World}
use ticketing_backend.Store.UserRepo
use ticketing_backend.Store.TokenRepo
use ticketing_backend.Store.TokenRepo.{revoke_row, insert_token, is_token, is_live}
use ticketing_backend.Auth.{
  Externals, JwtConfig, TokenPair, Claims, register, register_admin, login, refresh_access_token,
}
use ticketing_backend.Auth.Registration.{IsAccount, IsRefused, registration}
use ticketing_backend.Auth.Sessions.{IsError, IsLoggedIn, login_sound}
use ticketing_backend.Auth.Rotation.{IsRotated, IsSpent, refresh_rotates}
use ticketing_backend.Auth.Revocations.{Call, step, budget, spendings, spendings-le-one}
use ticketing_backend.Tests.Data.{tables, world_of, calm_env, session}

abbrev pub visitor : Claims
visitor = record { subject = "20"; issued_at = 100; expires_at = 400; role = "fan"; tenant_id = "" }

abbrev pub externals : Externals
externals = record {
  generate_from_password = λ tick password. some "hash";
  compare_hash_and_password = λ hash password. str_eq password "secret-word";
  signed_string = λ secret claims. some "signed";
  parse_with_claims = λ secret now token. some (visitor, true);
  numeric_date = λ t. t;
  rand_read = λ tick. some (tick ∷ []);
  encode_to_string = λ bytes. "new";
  sha256_hex = λ raw. if str_eq raw "raw" then "hash of raw" else "hash of another";
  uuid_string = λ id. "20";
  parse_uuid = λ text. some 20;
}

abbrev pub jwt : JwtConfig
jwt = record { secret = "key"; refresh_secret = "other"; access_ttl = 300; refresh_ttl = 9000 }

registration_example :
    (let done = register externals "New@x" "secret-word" "A" "B" calm_env (world_of tables) in
      IsAccount externals UserRole.fan none "New@x" "secret-word" tables done
      ⊎ IsRefused tables done)
    × (let done =
          register_admin externals 1 "New@x" "secret-word" "A" "B" calm_env (world_of tables) in
        IsAccount externals UserRole.admin (some 1) "New@x" "secret-word" tables done
        ⊎ IsRefused tables done)
registration_example =
    registration externals 1 "New@x" "secret-word" "A" "B" calm_env (world_of tables)

login_sound_example :
    let done =
      login externals jwt " Fan@example.org" "secret-word" "" "" calm_env (world_of tables) in
    IsError tables done ⊎ IsLoggedIn externals jwt " Fan@example.org" "secret-word" tables done
login_sound_example =
    login_sound externals jwt " Fan@example.org" "secret-word" "" "" calm_env (world_of tables)

abbrev exchanged : Result TokenPair × World
exchanged = refresh_access_token externals jwt "raw" "" "" calm_env (world_of tables)

abbrev pair : TokenPair
pair = record {
  access_token = "signed";
  access_token_expires_at = 404;
  refresh_token = "new";
  refresh_token_expires_at = 9104;
}

exchanged_ok : exchanged.0 ≡ ok pair
unfolding refresh_access_token TokenRepo.get_by_token_hash select_first UserRepo.get_by_id
    TokenRepo.revoke count_where TokenRepo.create update_where
exchanged_ok = refl

abbrev later : World
later = record exchanged.1 { tick = 50 }

refresh_rotates_example :
    IsRotated externals jwt "raw" 101 tables exchanged.1.db pair
    × IsSpent calm_env later (refresh_access_token externals jwt "raw" "" "" calm_env later)
refresh_rotates_example =
    refresh_rotates externals jwt "raw" "" "" calm_env (world_of tables) pair "" "" calm_env later
      exchanged_ok

-- Two requests with the same token, whose statements interleave.
abbrev race : List Call
race =
    Call.revoke 100 80 ∷ Call.insert 101 session ∷ Call.revoke 102 80 ∷ Call.revoke_all 103 20 ∷ []

spends_once : spendings 80 race tables ≡ 1
unfolding spendings revoke_row count_where step insert_token update_where
spends_once = refl

spendings-le-one_example :
    (spendings 80 race tables ≤ 1) × (spendings 80 race tables ≤ budget 80 tables)
spendings-le-one_example = spendings-le-one 80 race tables
