-- ===== src/Outbox.antt =====
-- internal/service/notification/service.go: the half of the outbox that sends.
pub mod Sending
use ticketing_backend.Prelude.{
  ℕ, ◌+◌, String, Bool, true, false, List, [], ◌∷◌, ◌++◌, if◌then◌else◌,
}
use ticketing_backend.Domain.{
  Error, Result, ok, err, Notification, NotificationType, Payload, EmailMessage,
}
use ticketing_backend.Store.UserRepo
use ticketing_backend.Store.NotificationRepo
use ticketing_backend.Store.Action.{World, Env, Action, next, ◌>>=◌}

-- EmailSender.Send: a message that the sender accepts is recorded.
unfoldable pub send : EmailMessage → Action (Unit {0})
send message env w =
    if env.send w.tick message
    then (ok tt, record (next w) { emails = w.emails ++ message ∷ [] })
    else (err Error.other, next w)

-- `body_of` is the text that fmt.Sprintf makes of a payload.
module _ (body_of : Payload → String) where
  unfoldable pub render : Notification → String → EmailMessage
  render n recipient_email = elim n.type [
    | NotificationType.order_confirmation ↦ record {
      to = recipient_email;
      subject = "Your order is confirmed";
      body = body_of n.payload;
    }
  ]

  unfoldable pub process_one : Notification → Action (Unit {0})
  unfolding send render
  process_one n = do user ← UserRepo.get_by_id n.user_id; send (render n user.email)

  -- What is written down of the attempt, and whether it counts as sent. Errors of the two
  -- statements are only logged.
  unfoldable pub record_attempt : Notification → Result (Unit {0}) → Env → World → Bool × World
  record_attempt n (err e) env w = (false, (NotificationRepo.mark_failed n.id e env w).1)
  record_attempt n (ok _) env w =
      let (r, w') = NotificationRepo.mark_sent n.id env w in
      elim r [ ok _ ↦ (true, w') | err e ↦ (false, w') ]

  unfoldable pub process_all : ℕ → List Notification → Env → World → ℕ × World
  unfolding process_one record_attempt
  process_all sent [] env w = (sent, w)
  process_all sent (n ∷ ns) env w =
      let (r, w1) = process_one n env w in
      let (counts, w2) = record_attempt n r env w1 in
      elim counts [ true ↦ process_all (sent + 1) ns env w2 | false ↦ process_all sent ns env w2 ]

  unfoldable pub process_pending : ℕ → Env → World → Result ℕ × World
  unfolding process_all
  process_pending batch_size env w =
      let (r, w') = NotificationRepo.list_pending batch_size env w in
      elim r [
        | ok pending ↦ let (sent, w2) = process_all 0 pending env w' in (ok sent, w2)
        | err e ↦ (err e, w')
      ]
