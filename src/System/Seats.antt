-- ===== src/System/Seats.antt =====
-- The handlers of the waiting room and the holds as histories of statements on
-- event_seat_inventory.
use ticketing_backend.Prelude.{ℕ, arith, String, Option}
use ticketing_backend.Domain.{Error}
use ticketing_backend.Store.Action.{World}
use ticketing_backend.Redis.{Client}
use ticketing_backend.Holding.{Config}
use ticketing_backend.Auth.{Externals}
use ticketing_backend.Http.{Handler}
use ticketing_backend.Http.Gate.{
  Context, user_and_tenant, user_id_from_context, resolved_tenant_id_from_context,
}
use ticketing_backend.Http.Seats.{
  HoldSeatRequest, ReleaseHoldRequest, status_error, hold_error, release_error, join_queue_handler,
  queue_status_handler, hold_handler, release_handler,
}
use ticketing_backend.System.Histories.{
  Sends, quietly, attempt-Sends, need-Sends, json-Sends, end-Sends,
}
use ticketing_backend.System.Exchanges.{
  shared, lift-Sends, release_hold-Sends, hold_seat-Sends, join_queue-Sends, queue_status-Sends,
}

module _ (ext : Externals) {S : Type 0} (client : Client S) (cfg : Config) where
  caller-Sends :
      {B : Type 0} (ctx : Context) {next : ℕ → ℕ → Handler (S × World) B}
      → ((user t : ℕ) → Sends shared (next user t))
      → Sends shared (user_and_tenant ext ctx next)
  unfolding user_and_tenant
  caller-Sends ctx h =
      need-Sends shared (user_id_from_context ext ctx) _ _
        λ user. need-Sends shared (resolved_tenant_id_from_context ctx) _ _ λ t. h user t

  status_error-Sends : (e : Error) → Sends shared (status_error {W = S × World} e)
  status_error-Sends e = quietly shared λ env (s, w). ground arith

  hold_error-Sends : (e : Error) → Sends shared (hold_error {W = S × World} e)
  hold_error-Sends e = quietly shared λ env (s, w). ground arith

  release_error-Sends : (e : Error) → Sends shared (release_error {W = S × World} e)
  release_error-Sends e = quietly shared λ env (s, w). ground arith

  pub join_page-Sends :
      (ctx : Context) (event : String) → Sends shared (join_queue_handler ext client cfg ctx event)
  unfolding join_queue_handler
  join_page-Sends ctx event = need-Sends shared (user_id_from_context ext ctx) _ _ λ user.
      need-Sends shared (ext.parse_uuid event) _ _ λ e.
        attempt-Sends shared (join_queue-Sends client cfg e user) (λ e. end-Sends shared _)
          λ position. end-Sends shared _

  pub status_page-Sends :
      (ctx : Context) (event : String)
      → Sends shared (queue_status_handler ext client cfg ctx event)
  unfolding queue_status_handler
  status_page-Sends ctx event = need-Sends shared (user_id_from_context ext ctx) _ _ λ user.
      need-Sends shared (ext.parse_uuid event) _ _ λ e.
        attempt-Sends shared (queue_status-Sends client cfg e user) status_error-Sends
          λ status. end-Sends shared _

  pub hold_page-Sends :
      (ctx : Context) (id : String) (body : Option HoldSeatRequest)
      → Sends shared (hold_handler ext client cfg ctx id body)
  unfolding hold_handler
  hold_page-Sends ctx id body = caller-Sends ctx λ user t.
      need-Sends shared (ext.parse_uuid id) _ _ λ i. json-Sends shared body λ req.
        need-Sends shared (ext.parse_uuid req.event_id) _ _ λ event.
          attempt-Sends shared (hold_seat-Sends client cfg t event i user) hold_error-Sends
            λ result. end-Sends shared _

  pub release_page-Sends :
      (ctx : Context) (id : String) (body : Option ReleaseHoldRequest)
      → Sends shared (release_handler ext client cfg ctx id body)
  unfolding release_handler
  release_page-Sends ctx id body = caller-Sends ctx λ user t.
      need-Sends shared (ext.parse_uuid id) _ _ λ i. json-Sends shared body λ req.
        need-Sends shared (ext.parse_uuid req.hold_token) _ _ λ k.
          attempt-Sends shared (lift-Sends (release_hold-Sends t i k)) release_error-Sends
            λ _. end-Sends shared _
