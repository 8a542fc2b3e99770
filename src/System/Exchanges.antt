-- ===== src/System/Exchanges.antt =====
-- The methods that also talk to Redis as histories of statements on event_seat_inventory.
use ticketing_backend.Prelude.{ℕ, ◌+◌, ◌≡◌, ap, inl, inr, arith, String, Bool, true, false}
use ticketing_backend.Domain.{Error, ok}
use ticketing_backend.Store.InventoryRepo
use ticketing_backend.Store.Inventory.{Table}
use ticketing_backend.Store.Action.{World, Env, Action, Db, next, Result-cases}
use ticketing_backend.Redis.{Key, Client, Service, ensure, lift, call}
use ticketing_backend.Redis.Locker
use ticketing_backend.Redis.WaitingRoom
use ticketing_backend.Holding.{
  Config, HoldResult, hold_locked, released, hold_seat, join_queue, queue_status, standing,
  admit_next, queue_length,
}
use ticketing_backend.Holding.Sweep.{release_hold}
use ticketing_backend.System.Histories.{
  Follows-refl, Follows-trans, Sends, quietly, bind-Sends, end-Sends, guard-Sends, inventory_of,
}
use ticketing_backend.System.Statements.{hold-Follows, release-Sends}

pub release_hold-Sends : (t i k : ℕ) → Sends inventory_of (release_hold t i k)
unfolding release_hold
release_hold-Sends t i k =
    bind-Sends inventory_of (release-Sends t i k) λ released. guard-Sends released Error.expired

module _ {S : Type 0} where
  abbrev pub shared : S × World → Table
  shared (s, w) = w.db.inventory

  pub lift-Sends : {A : Type 0} {m : Action A} → Sends inventory_of m → Sends shared (lift m)
  lift-Sends h = record { sends = λ env (s, w). h.sends env w }

  pub call-Sends : {A : Type 0} (command : ℕ → S → A × S) → Sends shared (call command)
  call-Sends command = quietly shared λ env (s, w). ground arith

  pub ensure-Sends : (b : Bool) (e : Error) → Sends shared (ensure b e)
  ensure-Sends b e = quietly shared λ env (s, w). ground arith

  module _ (client : Client S) where
    acquire-Sends : (key : Key) (ttl : ℕ) → Sends shared (Locker.acquire client key ttl)
    unfolding Locker.acquire
    acquire-Sends key ttl = quietly shared λ env (s, w). ground arith

    release-quiet : (key : Key) (token : String) → Sends shared (Locker.release client key token)
    unfolding Locker.release
    release-quiet key token = quietly shared λ env (s, w). ground arith

    allow-Sends :
        (key : Key) (limit window : ℕ) → Sends shared (Locker.allow client key limit window)
    unfolding Locker.allow
    allow-Sends key limit window = quietly shared λ env (s, w). ground arith

    is_admitted-Sends : (event user : ℕ) → Sends shared (WaitingRoom.is_admitted client event user)
    unfolding WaitingRoom.is_admitted
    is_admitted-Sends event user = quietly shared λ env (s, w). ground arith

    position-Sends : (event user : ℕ) → Sends shared (WaitingRoom.position client event user)
    unfolding WaitingRoom.position
    position-Sends event user = quietly shared λ env (s, w). ground arith

    admit-Sends : (event count ttl : ℕ) → Sends shared (WaitingRoom.admit client event count ttl)
    unfolding WaitingRoom.admit
    admit-Sends event count ttl = quietly shared λ env (s, w). ground arith

    module _ (cfg : Config) where
      locked_only :
          (t i user : ℕ) (env : Env) (s : S) (w : World)
          → let w' = next (next w) in
            (hold_locked client cfg t i user env (s, w)).1.1.db
            ≡ (InventoryRepo.hold t i
                (env.new_uuid w.tick)
                user
                (env.clock (next w).tick + cfg.hold_duration)
                env
                w').1.db
      unfolding hold_locked
      locked_only t i user env s w =
          elim (Result-cases
            (InventoryRepo.hold t i (env.new_uuid w.tick) user
              (env.clock (next w).tick + cfg.hold_duration) env (next (next w))).0) [
                | inl (held, e) ↦ ground arith
                | inr (x, e) ↦ ground arith
              ]

      locked-Sends : (t i user : ℕ) → Sends shared (hold_locked client cfg t i user)
      locked-Sends t i user = record {
        sends = λ env (s, w).
            let x = env.clock (next w).tick + cfg.hold_duration in
            Follows-trans
              (hold-Follows t i (env.new_uuid w.tick) user x (next w).tick env (next (next w))
                (omega arith))
              (Follows-refl (ap (λ (db : Db). db.inventory) (locked_only t i user env s w)));
      }

      released-Sends :
          (key : Key) (token : String) (body : Service S HoldResult)
          → Sends shared body
          → Sends shared (released client cfg key token body)
      released-Sends key token body h = record {
        sends = λ env w.
            Follows-trans (h.sends env w) ((release-quiet key token).sends env (body env w).1);
      }

      pub hold_seat-Sends :
          (t event i user : ℕ) → Sends shared (hold_seat client cfg t event i user)
      unfolding hold_seat
      hold_seat-Sends t event i user = bind-Sends shared (is_admitted-Sends event user) λ is_in.
          bind-Sends shared (ensure-Sends is_in Error.not_admitted) λ _.
            bind-Sends shared
              (allow-Sends (Key.rate_limit t event user) cfg.hold_rate_limit
                cfg.hold_rate_limit_window)
              λ allowed. bind-Sends shared (ensure-Sends allowed Error.rate_limited) λ _.
                bind-Sends shared (acquire-Sends (Key.lock t i) cfg.lock_ttl) λ lock.
                  bind-Sends shared (ensure-Sends lock.1 Error.lock_contention) λ _.
                    released-Sends (Key.lock t i) lock.0 (hold_locked client cfg t i user)
                      (locked-Sends t i user)

      pub join_queue-Sends : (event user : ℕ) → Sends shared (join_queue client cfg event user)
      unfolding join_queue WaitingRoom.join
      join_queue-Sends event user =
          bind-Sends shared (call-Sends (λ now. client.incr now (Key.seq event))) λ seq.
            bind-Sends shared
              (call-Sends (λ now s.
                (tt, client.zadd_nx now (Key.queue event) seq (client.uuid_string user) s)))
              λ _. position-Sends event user

      standing-Sends :
          (event user : ℕ) (is_in : Bool) → Sends shared (standing client cfg event user is_in)
      standing-Sends event user true = end-Sends shared (ok (true, 0))
      standing-Sends event user false =
          bind-Sends shared (position-Sends event user)
            λ position. end-Sends shared (ok (false, position))

      pub queue_status-Sends : (event user : ℕ) → Sends shared (queue_status client cfg event user)
      unfolding queue_status
      queue_status-Sends event user =
          bind-Sends shared (is_admitted-Sends event user) λ is_in. standing-Sends event user is_in

      pub admit_next-Sends : (event count : ℕ) → Sends shared (admit_next client cfg event count)
      unfolding admit_next
      admit_next-Sends event count = admit-Sends event count cfg.admission_ttl

      pub queue_length-Sends : (event : ℕ) → Sends shared (queue_length client cfg event)
      unfolding queue_length WaitingRoom.queue_length
      queue_length-Sends event = quietly shared λ env (s, w). ground arith
