-- ===== src/Http.antt =====
-- internal/handler and internal/pkg/response: what the handlers share. A handler is a function of
-- the world, like a method, and ends in one reply.
pub mod Gate
pub mod Accounts
pub mod Logins
pub mod Orders
pub mod Seats
pub mod Routes
pub mod Holds
pub mod Admin
pub mod Events
pub mod Isolation
pub mod Tenancy
pub mod StaffHandlers
pub mod Staff
pub mod Api
pub mod Health
pub mod NewUnits
pub mod Publishing
use ticketing_backend.Prelude.{ℕ, String, Bool, true, false, Option, none, some, if◌then◌else◌}
use ticketing_backend.Domain.{Error, Result, ok, err}
use ticketing_backend.Store.Action.{World, Env}

-- response.Error with its status code and type, or response.JSON with its status code and data.
pub data Reply (A : Type 0) : Type 0 where
  fault : ℕ → String → Reply A
  reply : ℕ → A → Reply A

-- A method over the state W: an Action for World, a Service for one with a Redis server.
abbrev pub Method : Type 0 → Type 0 → Type 0
Method W A = Env → W → Result A × W

abbrev pub Handler : Type 0 → Type 0 → Type 0
Handler W B = Env → W → Reply B × W

module _ {W B : Type 0} where
  abbrev pub refuse : ℕ → String → Handler W B
  refuse code type env w = (fault code type, w)

  abbrev pub respond : ℕ → B → Handler W B
  respond code data_out env w = (reply code data_out, w)

  -- `if err != nil { response.Error(…); return }`
  abbrev pub need : {A : Type 0} → Option A → ℕ → String → (A → Handler W B) → Handler W B
  need none code type next = refuse code type
  need (some a) code type next = next a

  abbrev pub demand : Bool → ℕ → String → Handler W B → Handler W B
  demand true code type next = next
  demand false code type next = refuse code type

  -- A call of a method, with the reply to each of its errors.
  abbrev pub attempt :
      {A : Type 0} → Method W A → (Error → Handler W B) → (A → Handler W B) → Handler W B
  attempt m refused next env w =
      let (r, w') = m env w in elim r [ ok a ↦ next a env w' | err e ↦ refused e env w' ]

  -- A body as encoding/json decodes it, `none` where it fails, and whether the validator accepts
  -- the struct's tags.
  unfoldable pub decode_and_validate :
      {R : Type 0} → (R → Bool) → Option R → (R → Handler W B) → Handler W B
  decode_and_validate is_valid body next =
      need body 400 "invalid-body" λ req. demand (is_valid req) 400 "validation-failed" (next req)

  unfoldable pub decode_json_body : {R : Type 0} → Option R → (R → Handler W B) → Handler W B
  decode_json_body body next = need body 400 "invalid-body" next

  -- 500, for an error that the handler only logs
  abbrev pub internal_error : Error → Handler W B
  internal_error e = refuse 500 "internal-error"
