-- ===== src/Holding/HoldSeat.antt =====
-- What HoldSeat does to the tables, whatever Redis does.
use ticketing_backend.Prelude.{
  ℕ, ◌+◌, ◌≡◌, ◌&&◌, refl, sym, ap, subst, arith, inl, inr, String, Bool, true, false, [], ◌∷◌,
  Bool-cases, ◌≤◌, Option-cases, some,
}
use ticketing_backend.Domain.{
  Error, Result, ok, err, InventoryStatus, is_available, EventSeatInventory,
}
use ticketing_backend.Sql.{count_where, select_first, update_where}
use ticketing_backend.Sql.Laws.{count-and-le, count-guarded}
use ticketing_backend.Store.Inventory
use ticketing_backend.Store.Inventory.{is_unit, set_held}
use ticketing_backend.Store.InventoryRepo
use ticketing_backend.Store.Action.{Db, next, World, Env, Result-cases}
use ticketing_backend.Redis.{Key, Client, Service, ensure, ◌>>=◌, ◌>>◌}
use ticketing_backend.Redis.Locker
use ticketing_backend.Redis.WaitingRoom
use ticketing_backend.SeatInventory.Keys.{IsKeyed, count-is_unit-le}
use ticketing_backend.Holding.{Config, HoldResult, hold_locked, released, hold_seat}

-- A unit under a hold.
abbrev pub under_hold : ℕ → HoldResult → EventSeatInventory → EventSeatInventory
under_hold u res row = record row {
  status = InventoryStatus.held;
  hold_token = some res.hold_token;
  held_by_user_id = some u;
  hold_expires_at = some res.expires_at;
}

-- The unit was available, and is now held by the user, under the token and until the expiry. All
-- else is as it was.
abbrev pub IsTaken : ℕ → ℕ → ℕ → Db → HoldResult → Db → Type 0
IsTaken t i u db res db' =
    (row : EventSeatInventory) × (select_first (is_unit t i) db.inventory ≡ some row)
    × (row.status ≡ InventoryStatus.available)
    × (db' ≡ record db { inventory = update_where (is_unit t i) (under_hold u res) db.inventory })

-- What HoldSeat may end in.
abbrev pub Outcome : ℕ → ℕ → ℕ → Db → Result HoldResult → Db → Type 0
Outcome t i u db (ok res) db' = IsTaken t i u db res db'
Outcome t i u db (err e) db' = db' ≡ db

module _ {S : Type 0} where
  abbrev IsQuiet : {A : Type 0} → Service S A → Type 0
  IsQuiet m = (env : Env) (w : S × World) → (m env w).1.1.db ≡ w.1.db

  bind-IsQuiet :
      {A B : Type 0} (m : Service S A) (f : A → Service S B)
      → IsQuiet m
      → ((a : A) → IsQuiet (f a))
      → IsQuiet (m >>= f)
  bind-IsQuiet m f hm hf env w = elim (Result-cases (m env w).0) [
    | inl (a, good) ↦ ground (arith, hm env w, hf a env (m env w).1)
    | inr (e, bad) ↦ ground (arith, hm env w)
  ]

  module _ (t i u : ℕ) where
    abbrev IsSound : Service S HoldResult → Type 0
    IsSound m =
        (env : Env) (w : S × World)
        → IsKeyed w.1.db.inventory
        → Outcome t i u w.1.db (m env w).0 (m env w).1.1.db

    bind-IsSound :
        {A : Type 0} (m : Service S A) (f : A → Service S HoldResult)
        → IsQuiet m
        → ((a : A) → IsSound (f a))
        → IsSound (m >>= f)
    bind-IsSound m f hm hf env w keyed = elim (Result-cases (m env w).0) [
      | inl (a, good) ↦
          let w1 = (m env w).1 in
          let same = hm env w in
          let same_run : (m >>= f) env w ≡ f a env w1 = ground arith in
          subst (λ x. Outcome t i u w.1.db x.0 x.1.1.db) (sym same_run)
            (subst (λ db. Outcome t i u db (f a env w1).0 (f a env w1).1.1.db) same
              (hf a env w1 (subst (λ db. IsKeyed db.inventory) (sym same) keyed)))
      | inr (e, bad) ↦
          let same_run : (m >>= f) env w ≡ (err e, (m env w).1) = ground arith in
          subst (λ x. Outcome t i u w.1.db x.0 x.1.1.db) (sym same_run) (hm env w)
    ]

update_none :
    (p : EventSeatInventory → Bool) (f : EventSeatInventory → EventSeatInventory)
    (rows : Inventory.Table)
    → count_where p rows ≡ 0
    → update_where p f rows ≡ rows
unfolding count_where update_where
update_none p f [] h = refl
update_none p f (row ∷ rows) h = ground (arith, update_none p f rows)

-- A statement that reports false has changed nothing.
hold-false :
    (t i k u x : ℕ) (rows : Inventory.Table)
    → IsKeyed rows
    → (Inventory.hold t i k u x rows).0 ≡ false
    → (Inventory.hold t i k u x rows).1 ≡ rows
unfolding Inventory.hold
hold-false t i k u x rows keyed h =
    let clause = λ (row : EventSeatInventory). is_unit t i row && is_available row.status in
    let few = count-and-le (is_unit t i) (λ row. is_available row.status) rows in
    let unique = count-is_unit-le t i rows keyed in update_none clause _ rows (ground arith)

-- The guard of an update by key makes no difference where the row of the key passes it.
update_keyed :
    (p q : EventSeatInventory → Bool) (f : EventSeatInventory → EventSeatInventory)
    (rows : Inventory.Table) {row : EventSeatInventory}
    → count_where p rows ≤ 1
    → select_first p rows ≡ some row
    → q row ≡ true
    → update_where (λ x. p x && q x) f rows ≡ update_where p f rows
unfolding count_where update_where select_first
update_keyed p q f [] few found passes = refl
update_keyed p q f (x ∷ xs) {row} few found passes = ground (
  arith,
  update_none p f xs,
  update_none (λ x. p x && q x) f xs,
  count-and-le p q xs,
  update_keyed p q f xs {row = row},
)

-- A statement that reports true has taken the unit.
hold-IsTaken :
    (t i k u x : ℕ) (db : Db)
    → IsKeyed db.inventory
    → (Inventory.hold t i k u x db.inventory).0 ≡ true
    → IsTaken t i u db
        (record { hold_token = k; expires_at = x })
        (record db { inventory = (Inventory.hold t i k u x db.inventory).1 })
unfolding Inventory.hold
hold-IsTaken t i k u x db keyed taken =
    let unique = count-is_unit-le t i db.inventory keyed in
    let guarded =
      count-guarded (is_unit t i) (λ row. is_available row.status) db.inventory unique in
    elim (Option-cases (select_first (is_unit t i) db.inventory)) [
      | inl absent ↦ absurd (ground arith)
      | inr (row, found) ↦
          let passes : is_available row.status ≡ true = ground arith in
          (
            row,
            found,
            ground arith,
            ap (λ rows. record db { inventory = rows })
                (update_keyed (is_unit t i) (λ r. is_available r.status) (set_held k u x)
                  db.inventory unique found passes),
          )
    ]

module _ {S : Type 0} (client : Client S) (cfg : Config) (t i u : ℕ) where
  hold_locked-IsSound : IsSound {S = S} t i u (hold_locked client cfg t i u)
  unfolding hold_locked InventoryRepo.hold
  hold_locked-IsSound env (s, w) keyed =
      let k = env.new_uuid w.tick in
      let x = env.clock (next w).tick + cfg.hold_duration in
      let rows = (Inventory.hold t i k u x w.db.inventory).1 in
      let go = hold_locked client cfg t i u env (s, w) in
      let outcome : (r : Result HoldResult)
          → (db : Db) → go.0 ≡ r
          → go.1.1.db ≡ db
          → Outcome t i u w.db r db
          → Outcome t i u w.db go.0 go.1.1.db =
        λ r db p q o.
          subst (λ r. Outcome t i u w.db r go.1.1.db) (sym p)
            (subst (Outcome t i u w.db r) (sym q) o) in
      elim (Bool-cases (env.fails (next (next w)).tick)) [
        | inl down ↦ outcome (err Error.other) w.db (ground arith) (ground arith) refl
        | inr calm ↦ elim (Bool-cases (Inventory.hold t i k u x w.db.inventory).0) [
          | inl taken ↦
              outcome (ok (record { hold_token = k; expires_at = x }))
                (record w.db { inventory = rows }) (ground arith) (ground arith)
                (hold-IsTaken t i k u x w.db keyed taken)
          | inr missed ↦
              outcome (err Error.unavailable) w.db (ground arith)
                (ground (arith, hold-false t i k u x w.db.inventory keyed missed)) refl
        ]
      ]

  release-IsQuiet : (key : Key) (token : String) → IsQuiet (Locker.release client key token)
  unfolding Locker.release
  release-IsQuiet key token env w = ground arith

  released-IsSound :
      (key : Key) (token : String)
      → IsSound t i u (released client cfg key token (hold_locked client cfg t i u))
  released-IsSound key token env w keyed =
      subst (λ db. Outcome t i u w.1.db (hold_locked client cfg t i u env w).0 db)
        (sym (release-IsQuiet key token env (hold_locked client cfg t i u env w).1))
        (hold_locked-IsSound env w keyed)

  ensure-IsQuiet : (b : Bool) (e : Error) → IsQuiet {S = S} (ensure b e)
  ensure-IsQuiet true e env w = refl
  ensure-IsQuiet false e env w = refl

  abbrev under_lock : String × Bool → Service S HoldResult
  under_lock lock =
      ensure lock.1 Error.lock_contention
      >> released client cfg (Key.lock t i) lock.0 (hold_locked client cfg t i u)

  abbrev if_allowed : Bool → Service S HoldResult
  if_allowed allowed =
      ensure allowed Error.rate_limited
      >> (Locker.acquire client (Key.lock t i) cfg.lock_ttl >>= under_lock)

  under_lock-IsSound : (lock : String × Bool) → IsSound t i u (under_lock lock)
  under_lock-IsSound lock =
      bind-IsSound t i u (ensure lock.1 Error.lock_contention)
        (λ _. released client cfg (Key.lock t i) lock.0 (hold_locked client cfg t i u))
        (ensure-IsQuiet lock.1 Error.lock_contention) (λ _. released-IsSound (Key.lock t i) lock.0)

  acquire-IsQuiet : IsQuiet (Locker.acquire client (Key.lock t i) cfg.lock_ttl)
  unfolding Locker.acquire
  acquire-IsQuiet env w = ground arith

  if_allowed-IsSound : (allowed : Bool) → IsSound t i u (if_allowed allowed)
  if_allowed-IsSound allowed =
      bind-IsSound t i u (ensure allowed Error.rate_limited)
        (λ _. Locker.acquire client (Key.lock t i) cfg.lock_ttl >>= under_lock)
        (ensure-IsQuiet allowed Error.rate_limited)
        (λ _.
          bind-IsSound t i u (Locker.acquire client (Key.lock t i) cfg.lock_ttl) under_lock
            acquire-IsQuiet under_lock-IsSound)

  module _ (e : ℕ) where
    abbrev limiter : Service S Bool
    limiter =
        Locker.allow client (Key.rate_limit t e u) cfg.hold_rate_limit cfg.hold_rate_limit_window

    abbrev if_in : Bool → Service S HoldResult
    if_in is_in = ensure is_in Error.not_admitted >> (limiter >>= if_allowed)

    limiter-IsQuiet : IsQuiet limiter
    unfolding Locker.allow
    limiter-IsQuiet env w = ground arith

    is_admitted-IsQuiet : IsQuiet (WaitingRoom.is_admitted client e u)
    unfolding WaitingRoom.is_admitted
    is_admitted-IsQuiet env w = ground arith

    if_in-IsSound : (is_in : Bool) → IsSound t i u (if_in is_in)
    if_in-IsSound is_in =
        bind-IsSound t i u (ensure is_in Error.not_admitted) (λ _. limiter >>= if_allowed)
          (ensure-IsQuiet is_in Error.not_admitted)
          (λ _. bind-IsSound t i u limiter if_allowed limiter-IsQuiet if_allowed-IsSound)

-- Whatever the Redis server answers, on a table with unique identifiers: if HoldSeat succeeds,
-- the unit was available and is now held under the token and until the expiry that it returns,
-- and nothing else in the tables has changed; if it fails, at whichever step, no table has
-- changed.
pub hold_seat_sound :
    {S : Type 0} (client : Client S) (cfg : Config) (t e i u : ℕ) (env : Env) (s : S) (w : World)
    → IsKeyed w.db.inventory
    → let (r, (s', w')) = hold_seat client cfg t e i u env (s, w) in Outcome t i u w.db r w'.db
unfolding hold_seat
hold_seat_sound client cfg t e i u env s w keyed =
    bind-IsSound t i u (WaitingRoom.is_admitted client e u) (if_in client cfg t i u e)
      (is_admitted-IsQuiet client cfg t i u e) (if_in-IsSound client cfg t i u e) env (s, w) keyed
