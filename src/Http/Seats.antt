-- ===== src/Http/Seats.antt =====
-- internal/handler/http/inventory.go: the waiting room and the holds of a fan.
use ticketing_backend.Prelude.{ℕ, String, Option}
use ticketing_backend.Domain.{Error}
use ticketing_backend.Store.Action.{World}
use ticketing_backend.Redis.{Client, lift}
use ticketing_backend.Holding.{Config, HoldResult, QueueStatus, hold_seat, join_queue, queue_status}
use ticketing_backend.Holding.Sweep.{release_hold}
use ticketing_backend.Auth.{Externals}
use ticketing_backend.Http.{
  Handler, need, attempt, refuse, respond, internal_error, decode_json_body,
}
use ticketing_backend.Http.Gate.{Context, user_and_tenant, user_id_from_context}

module _ {W : Type 0} where
  abbrev pub status_error : Error → Handler W QueueStatus
  status_error Error.not_queued = refuse 404 "not-queued"
  status_error e = internal_error e

  abbrev pub hold_error : Error → Handler W HoldResult
  hold_error Error.not_admitted = refuse 403 "not-admitted"
  hold_error Error.rate_limited = refuse 429 "rate-limited"
  hold_error Error.lock_contention = refuse 409 "unavailable"
  hold_error Error.unavailable = refuse 409 "unavailable"
  hold_error e = internal_error e

  abbrev pub release_error : Error → Handler W String
  release_error Error.expired = refuse 409 "already-expired"
  release_error e = internal_error e

-- The bodies of Hold and Release: event_id, and hold_token.
pub record HoldSeatRequest : Type 0 where
  pub event_id : String

pub record ReleaseHoldRequest : Type 0 where
  pub hold_token : String

module _ (ext : Externals) {S : Type 0} (client : Client S) (cfg : Config) where
  -- JoinQueue, with the path's eventID
  unfoldable pub join_queue_handler : Context → String → Handler (S × World) ℕ
  unfolding user_id_from_context
  join_queue_handler ctx event = need (user_id_from_context ext ctx) 401 "missing-token" λ user_id.
      need (ext.parse_uuid event) 400 "invalid-event-id" λ event_id.
        attempt (join_queue client cfg event_id user_id) internal_error
          λ position. respond 200 position

  -- QueueStatus
  unfoldable pub queue_status_handler : Context → String → Handler (S × World) QueueStatus
  unfolding user_id_from_context
  queue_status_handler ctx event =
      need (user_id_from_context ext ctx) 401 "missing-token" λ user_id.
        need (ext.parse_uuid event) 400 "invalid-event-id" λ event_id.
          attempt (queue_status client cfg event_id user_id) status_error
            λ status. respond 200 status

  -- Hold, with the path's id
  unfoldable pub hold_handler :
      Context → String → Option HoldSeatRequest → Handler (S × World) HoldResult
  unfolding user_and_tenant decode_json_body
  hold_handler ctx id body = user_and_tenant ext ctx λ user_id tenant_id.
      need (ext.parse_uuid id) 400 "invalid-inventory-id" λ inventory_id.
        decode_json_body body λ req.
          need (ext.parse_uuid req.event_id) 400 "invalid-event-id" λ event_id.
            attempt (hold_seat client cfg tenant_id event_id inventory_id user_id) hold_error
              λ result. respond 200 result

  -- Release, with the path's id
  unfoldable pub release_handler :
      Context → String → Option ReleaseHoldRequest → Handler (S × World) String
  unfolding user_and_tenant decode_json_body
  release_handler ctx id body = user_and_tenant ext ctx λ user_id tenant_id.
      need (ext.parse_uuid id) 400 "invalid-inventory-id" λ inventory_id.
        decode_json_body body λ req.
          need (ext.parse_uuid req.hold_token) 400 "invalid-hold-token" λ hold_token.
            attempt (lift (release_hold tenant_id inventory_id hold_token)) release_error
              λ _. respond 200 "released"
