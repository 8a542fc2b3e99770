-- ===== src/Holding.antt =====
-- internal/service/inventory: the service that takes a hold through the waiting room, the rate
-- limiter, the lock and the table, and the sweep that gives expired holds back.
pub mod HoldSeat
pub mod Sweep
pub mod Reclaim
pub mod Backlog
use ticketing_backend.Prelude.{
  ℕ, ◌+◌, String, Bool, true, false, Option, none, some, List, [], ◌∷◌, if◌then◌else◌,
}
use ticketing_backend.Domain.{Error, Result, ok, err, EventSeatInventory}
use ticketing_backend.Store.InventoryRepo
use ticketing_backend.Store.Action.{World, Env, Action, now, new_uuid}
use ticketing_backend.Redis.{Key, Client, Service, return, ensure, ◌>>=◌, ◌>>◌, lift}
use ticketing_backend.Redis.Locker
use ticketing_backend.Redis.WaitingRoom

-- config.go; durations and instants are on one scale.
pub record Config : Type 0 where
  pub hold_duration : ℕ
  pub lock_ttl : ℕ
  pub admission_ttl : ℕ
  pub hold_rate_limit : ℕ
  pub hold_rate_limit_window : ℕ

pub record HoldResult : Type 0 where
  pub hold_token : ℕ
  pub expires_at : ℕ

abbrev pub QueueStatus : Type 0
QueueStatus = Bool × ℕ

module _ {S : Type 0} (client : Client S) (cfg : Config) where
  -- The part of HoldSeat under the lock.
  unfoldable pub hold_locked : ℕ → ℕ → ℕ → Service S HoldResult
  hold_locked tenant_id inventory_id user_id = do
    hold_token ← lift new_uuid
    instant ← lift now
    let expires_at = instant + cfg.hold_duration
    held ← lift (InventoryRepo.hold tenant_id inventory_id hold_token user_id expires_at)
    ensure held Error.unavailable
    return (record { hold_token = hold_token; expires_at = expires_at })

  -- The deferred release: whatever the body ends in, and whatever becomes of the release itself.
  abbrev pub released : Key → String → Service S HoldResult → Service S HoldResult
  released key token body env w =
      let (r, w') = body env w in (r, (Locker.release client key token env w').1)

  unfoldable pub hold_seat : ℕ → ℕ → ℕ → ℕ → Service S HoldResult
  hold_seat tenant_id event_id inventory_id user_id = do
    is_in ← WaitingRoom.is_admitted client event_id user_id
    ensure is_in Error.not_admitted
    allowed ←
        Locker.allow client (Key.rate_limit tenant_id event_id user_id) cfg.hold_rate_limit
          cfg.hold_rate_limit_window
    ensure allowed Error.rate_limited
    let key = Key.lock tenant_id inventory_id
    lock ← Locker.acquire client key cfg.lock_ttl
    ensure lock.1 Error.lock_contention
    released key lock.0 (hold_locked tenant_id inventory_id user_id)

  unfoldable pub join_queue : ℕ → ℕ → Service S ℕ
  join_queue event_id user_id = WaitingRoom.join client event_id user_id

  abbrev pub standing : ℕ → ℕ → Bool → Service S QueueStatus
  standing event_id user_id true env w = (ok (true, 0), w)
  standing event_id user_id false env w =
      (WaitingRoom.position client event_id user_id >>= λ position. return (false, position)) env w

  -- QueueStatus: whether the fan is admitted, and the position, 0 for one who is.
  unfoldable pub queue_status : ℕ → ℕ → Service S QueueStatus
  queue_status event_id user_id = do
    is_in ← WaitingRoom.is_admitted client event_id user_id
    standing event_id user_id is_in

  unfoldable pub admit_next : ℕ → ℕ → Service S (List ℕ)
  admit_next event_id count = WaitingRoom.admit client event_id count cfg.admission_ttl

  unfoldable pub queue_length : ℕ → Service S ℕ
  queue_length event_id = WaitingRoom.queue_length client event_id
