-- ===== src/Store/Action.antt =====
-- The tables of migrations/, the world, and internal/repository/postgres/tx.go: the executor
-- that a statement runs on, and the transaction of WithTx.
use ticketing_backend.Prelude.{
  ℕ, suc, ◌≡◌, refl, ◌⊎◌, inl, inr, String, Bool, true, false, Option, none, some, List, arith,
  ◌==◌, if◌then◌else◌,
}
use ticketing_backend.Domain.Amounts.{Money}
use ticketing_backend.Domain.Events.{Event, EventTicketCategory, SeatCategory}
use ticketing_backend.Domain.Venues.{Venue, VenueSection, Seat}
use ticketing_backend.Domain.Accounts.{User, RefreshToken, Tenant}
use ticketing_backend.Domain.{
  Error, Result, ok, err, nil_uuid, EventSeatInventory, Order, OrderItem, Payment, Notification,
  EmailMessage,
}

pub record Db : Type 0 where
  pub inventory : List EventSeatInventory
  pub orders : List Order
  pub order_items : List OrderItem
  pub payments : List Payment
  pub notifications : List Notification
  pub users : List User
  pub refresh_tokens : List RefreshToken
  pub tenants : List Tenant
  pub events : List Event
  pub ticket_categories : List EventTicketCategory
  pub seat_categories : List SeatCategory
  pub venues : List Venue
  pub venue_sections : List VenueSection
  pub seats : List Seat

-- The metadata of an intent, whose values are the texts of these identifiers.
abbrev pub Metadata : Type 0
Metadata = List (String × ℕ)

-- A request that was sent to the payment provider.
pub data GatewayCall : Type 0 where
  create_intent : Money → String → Metadata → GatewayCall
  refund : String → Money → GatewayCall

pub record World : Type 0 where
  pub db : Db
  pub tick : ℕ
  pub gateway_calls : List GatewayCall
  pub emails : List EmailMessage

-- What the services outside of the repository answer at each tick. `none` is an error. `precedes`
-- is the order of texts in the database's collation.
pub record Env : Type 0 where
  pub fails : ℕ → Bool
  pub clock : ℕ → ℕ
  pub new_uuid : ℕ → ℕ
  pub create_intent : ℕ → Money → String → Metadata → Option (String × String)
  pub refund : ℕ → String → Money → Option String
  pub send : ℕ → EmailMessage → Bool
  pub precedes : String → String → Bool

abbrev pub Action : Type 0 → Type 0
Action A = Env → World → Result A × World

abbrev pub pure : {A : Type 0} → A → Action A
pure a env w = (ok a, w)

abbrev pub fail : {A : Type 0} → Error → Action A
fail e env w = (err e, w)

infixl 5 ◌>>=◌ ◌>>◌
abbrev pub ◌>>=◌ : {A B : Type 0} → Action A → (A → Action B) → Action B
◌>>=◌ m f env w = let (r, w') = m env w in elim r [ ok a ↦ f a env w' | err e ↦ (err e, w') ]

abbrev pub ◌>>◌ : {B : Type 0} → Action (Unit {0}) → Action B → Action B
m >> k = m >>= λ _. k

abbrev pub guard : Bool → Error → Action (Unit {0})
guard true e = pure tt
guard false e = fail e

abbrev pub next : World → World
next w = record w { tick = suc w.tick }

-- A statement on the executor of db(ctx).
abbrev pub exec : {A : Type 0} → (Db → Result A × Db) → Action A
exec statement env w =
    if env.fails w.tick
    then (err Error.other, next w)
    else let (r, db') = statement w.db in (r, record w { db = db'; tick = suc w.tick })

-- A statement whose DEFAULT now() columns read the clock of its instant.
abbrev pub exec_at : {A : Type 0} → (ℕ → Db → Result A × Db) → Action A
exec_at statement env w = exec (statement (env.clock w.tick)) env w

abbrev pub or_fail : {A : Type 0} → Option A → Error → Action A
or_fail none e = fail e
or_fail (some a) e = pure a

abbrev pub or_not_found : {A : Type 0} → Option A → Result A
or_not_found none = err Error.not_found
or_not_found (some a) = ok a

-- time.Now()
abbrev pub now : Action ℕ
now env w = (ok (env.clock w.tick), next w)

-- uuid.New()
abbrev pub new_uuid : Action ℕ
new_uuid env w = (ok (env.new_uuid w.tick), next w)

-- `if id == uuid.Nil { id = uuid.New() }`
abbrev pub with_id : ℕ → Action ℕ
with_id id = if id == nil_uuid then new_uuid else pure id

abbrev commit : {A : Type 0} → Env → World → Result A × World → Result A × World
commit env before (err e, w) = (err e, record w { db = before.db })
commit env before (ok a, w) =
    if env.fails w.tick
    then (err Error.other, record w { db = before.db; tick = suc w.tick })
    else (ok a, next w)

-- WithTx: BEGIN may fail; an error of `fn` rolls the tables back and is returned; a COMMIT that
-- fails rolls back too, and its error is the result.
unfoldable pub with_tx : {A : Type 0} → Action A → Action A
with_tx fn env w =
    if env.fails w.tick then (err Error.other, next w) else commit env w (fn env (next w))

-- SetTenantContext: a statement that changes no table. The variable that it sets is read by
-- row-level security only.
unfoldable pub set_tenant_context : ℕ → Action (Unit {0})
set_tenant_context tenant_id = exec λ db. (ok tt, db)

-- A transaction that ends in an error leaves every table as it was.
pub with_tx-err :
    {A : Type 0} (fn : Action A) (env : Env) (w : World) {e : Error}
    → (with_tx fn env w).0 ≡ err e
    → (with_tx fn env w).1.db ≡ w.db
unfolding with_tx
with_tx-err fn env w h = ground arith

-- One that succeeds has the result and the tables of its body.
pub with_tx-ok :
    {A : Type 0} (fn : Action A) (env : Env) (w : World) {a : A}
    → (with_tx fn env w).0 ≡ ok a
    → ((fn env (next w)).0 ≡ ok a) × ((with_tx fn env w).1.db ≡ (fn env (next w)).1.db)
unfolding with_tx
with_tx-ok fn env w h = ground arith

-- Where neither BEGIN nor COMMIT fails, the body's result is the result.
pub with_tx_calm :
    {A : Type 0} (fn : Action A) (env : Env) (w : World)
    → ((n : ℕ) → env.fails n ≡ false)
    → (with_tx fn env w).0 ≡ (fn env (next w)).0
unfolding with_tx
with_tx_calm fn env w calm = ground (arith, calm w.tick, calm (fn env (next w)).1.tick)

pub Result-cases :
    {A : Type 0} (r : Result A) → ((a : A) × (r ≡ ok a)) ⊎ ((e : Error) × (r ≡ err e))
Result-cases (ok a) = inl (a, refl)
Result-cases (err e) = inr (e, refl)

-- A chain that succeeds: its first action does, and so does the rest on what that leaves.
pub bind-ok :
    {A B : Type 0} (m : Action A) (f : A → Action B) (env : Env) (w : World) {b : B}
    → ((m >>= f) env w).0 ≡ ok b
    → (a : A) × ((m env w).0 ≡ ok a)
      × ((f a env (m env w).1).0 ≡ ok b)
      × (((m >>= f) env w).1 ≡ (f a env (m env w).1).1)
bind-ok m f env w h = elim (Result-cases (m env w).0) [
  | inl (a, good) ↦ (a, good, ground arith, ground arith)
  | inr (e, bad) ↦ absurd (ground arith)
]

pub guard-ok :
    (b : Bool) (e : Error) (env : Env) (w : World)
    → (guard b e env w).0 ≡ ok tt
    → (b ≡ true) × ((guard b e env w).1 ≡ w)
guard-ok b e env w h = ground arith
