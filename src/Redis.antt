-- ===== src/Redis.antt =====
-- internal/repository/redis: the commands that it sends to a Redis server, and the state that
-- they act on beside the tables.
pub mod Locker
pub mod WaitingRoom
use ticketing_backend.Prelude.{
  ℕ, suc, String, Bool, true, false, Option, none, some, List, if◌then◌else◌,
}
use ticketing_backend.Domain.{Error, Result, ok, err}
use ticketing_backend.Store.Action.{World, Env, Action, next}

-- The keys that lockKey, rateLimitKey, queueKey, seqKey and admittedKey format: the formats have
-- different prefixes, and an identifier's text has a fixed length.
pub data Key : Type 0 where
  lock : (tenant_id inventory_id : ℕ) → Key
  rate_limit : (tenant_id event_id user_id : ℕ) → Key
  queue : (event_id : ℕ) → Key
  seq : (event_id : ℕ) → Key
  admitted : (event_id user_id : ℕ) → Key

-- A Redis server with the states S: each command takes the instant at which the server runs it,
-- since its keys expire. `zrank` of an absent member is none (redis.Nil). The texts of
-- google/uuid stand beside them.
pub record Client (S : Type 0) : Type 0 where
  pub set_nx : ℕ → Key → String → ℕ → S → Bool × S
  pub set : ℕ → Key → String → ℕ → S → S
  pub get : ℕ → Key → S → Option String
  pub del : ℕ → Key → S → ℕ × S
  pub exists : ℕ → Key → S → ℕ
  pub incr : ℕ → Key → S → ℕ × S
  pub expire : ℕ → Key → ℕ → S → S
  pub zadd_nx : ℕ → Key → ℕ → String → S → S
  pub zrank : ℕ → Key → String → S → Option ℕ
  pub zcard : ℕ → Key → S → ℕ
  pub zpopmin : ℕ → Key → ℕ → S → List String × S
  pub uuid_string : ℕ → String
  pub uuid_parse : String → Option ℕ

-- A method that may also talk to Redis.
abbrev pub Service : Type 0 → Type 0 → Type 0
Service S A = Env → S × World → Result A × (S × World)

module _ {S : Type 0} where
  abbrev pub return : {A : Type 0} → A → Service S A
  return a env w = (ok a, w)

  infixl 5 ◌>>=◌ ◌>>◌
  abbrev pub ◌>>=◌ : {A B : Type 0} → Service S A → (A → Service S B) → Service S B
  ◌>>=◌ m f env w = let (r, w') = m env w in elim r [ ok a ↦ f a env w' | err e ↦ (err e, w') ]

  abbrev pub ◌>>◌ : {B : Type 0} → Service S (Unit {0}) → Service S B → Service S B
  m >> k = m >>= λ _. k

  abbrev pub ensure : Bool → Error → Service S (Unit {0})
  ensure true e env w = (ok tt, w)
  ensure false e env w = (err e, w)

  -- A method that only uses the tables.
  abbrev pub lift : {A : Type 0} → Action A → Service S A
  lift action env (s, w) = let (r, w') = action env w in (r, (s, w'))

  -- One request to the server: it may fail on the way, and then it has changed nothing.
  abbrev pub call : {A : Type 0} → (ℕ → S → A × S) → Service S A
  call command env (s, w) =
      if env.fails w.tick
      then (err Error.other, (s, next w))
      else let (a, s') = command (env.clock w.tick) s in (ok a, (s', next w))
