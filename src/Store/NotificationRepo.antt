-- ===== src/Store/NotificationRepo.antt =====
-- internal/repository/postgres/notification.go: the transactional outbox.
use ticketing_backend.Prelude.{
  ℕ, ◌+◌, Bool, none, some, List, [], ◌∷◌, ◌++◌, ◌==◌, take, if◌then◌else◌,
}
use ticketing_backend.Domain.{Error, Result, ok, err, Notification, NotificationStatus, is_unsent}
use ticketing_backend.Sql.{update_where, count_where, select_where, order_by}
use ticketing_backend.Store.Action.{Db, Action, ◌>>=◌, exec, exec_at, with_id}

-- The row that an INSERT makes: the table's defaults stand in the columns it does not name.
abbrev pub new_row : ℕ → ℕ → Notification → Notification
new_row id now n = record n {
  id = id;
  attempts = 0;
  last_error = none;
  created_at = now;
  sent_at = none;
}

abbrev pub is_notification : ℕ → Notification → Bool
is_notification id n = n.id == id

unfoldable pub create : Notification → Action (Unit {0})
create n = do
  id ← with_id n.id
  exec_at λ now db.
      if count_where (is_notification id) db.notifications == 0
      then (ok tt, record db { notifications = db.notifications ++ new_row id now n ∷ [] })
      else (err Error.other, db)

abbrev pub pending_of : ℕ → Db → List Notification
pending_of limit db =
    take limit
      (order_by (λ n. n.created_at) (select_where (λ n. is_unsent n.status) db.notifications))

unfoldable pub list_pending : ℕ → Action (List Notification)
list_pending limit = exec λ db. (ok (pending_of limit db), db)

abbrev pub set_sent : ℕ → Notification → Notification
set_sent now n = record n {
  status = NotificationStatus.sent;
  sent_at = some now;
  attempts = n.attempts + 1;
}

abbrev pub set_failed : Error → Notification → Notification
set_failed e n = record n {
  status = NotificationStatus.failed;
  attempts = n.attempts + 1;
  last_error = some e;
}

abbrev mark : ℕ → (Notification → Notification) → Db → Result (Unit {0}) × Db
mark id change db = (
  if count_where (is_notification id) db.notifications == 0 then err Error.not_found else ok tt,
  record db { notifications = update_where (is_notification id) change db.notifications },
)

unfoldable pub mark_sent : ℕ → Action (Unit {0})
mark_sent id = exec_at λ now. mark id (set_sent now)

unfoldable pub mark_failed : ℕ → Error → Action (Unit {0})
mark_failed id e = exec (mark id (set_failed e))
