-- ===== src/Tests/Workers.antt =====
-- One tick of the admission and one of the outbox.
use ticketing_backend.Prelude.{
  ◌+◌, ◌≤◌, ◌≡◌, refl, String, true, none, some, List, [], ◌∷◌, length, take, drop, length-take-le,
}
use ticketing_backend.Domain.{ok, Notification, NotificationType, NotificationStatus, Payload}
use ticketing_backend.Sql.{select_where, select_first, order_by, count_where}
use ticketing_backend.Store.Action.{Db}
use ticketing_backend.Store.Inventory
use ticketing_backend.Store.InventoryRepo
use ticketing_backend.Store.UserRepo
use ticketing_backend.Store.NotificationRepo
use ticketing_backend.Store.NotificationRepo.{pending_of}
use ticketing_backend.Redis.{Client}
use ticketing_backend.Redis.WaitingRoom
use ticketing_backend.Holding
use ticketing_backend.Admission.{total_available, admit_for_event, min64}
use ticketing_backend.Admission.Bounds.{PopsAtMost, admit_for_event_bounded}
use ticketing_backend.Outbox.{process_pending}
use ticketing_backend.Outbox.Sending.{Sent, mails, process_pending_bounded}
use ticketing_backend.Tests.Data.{tables, world_of, calm_env}
use ticketing_backend.Tests.Holds.{config}

-- A server that keeps one queue.
abbrev one_queue : Client (List String)
one_queue = record {
  set_nx = λ now key value ttl s. (true, s);
  set = λ now key value ttl s. s;
  get = λ now key s. none;
  del = λ now key s. (0, s);
  exists = λ now key s. 0;
  incr = λ now key s. (1, s);
  expire = λ now key ttl s. s;
  zadd_nx = λ now key score member s. s;
  zrank = λ now key member s. none;
  zcard = λ now key s. length s;
  zpopmin = λ now key count s. (take count s, drop count s);
  uuid_string = λ id. "id";
  uuid_parse = λ text. some 21;
}

one_queue-PopsAtMost : PopsAtMost one_queue
one_queue-PopsAtMost now key n s = length-take-le n s

abbrev queue : List String
queue = "a" ∷ "b" ∷ "c" ∷ []

one_admitted : (admit_for_event one_queue config 2 1 3 calm_env (queue, world_of tables)).0 ≡ ok 1
unfolding admit_for_event Holding.queue_length WaitingRoom.queue_length
    InventoryRepo.count_by_status total_available Inventory.count_by_status Inventory.put_groups
    Inventory.group_by_status select_where min64 Holding.admit_next WaitingRoom.admit
    WaitingRoom.parsed
one_admitted = refl

admit_for_event_bounded_example :
    (1 ≤ length queue)
    × (1 ≤ total_available (Inventory.count_by_status 1 3 tables.inventory))
    × (1 ≤ 2)
admit_for_event_bounded_example =
    admit_for_event_bounded one_queue config 2 1 3 calm_env queue (world_of tables) {n = 1}
      one_queue-PopsAtMost one_admitted

abbrev enqueued : Notification
enqueued = record {
  id = 70;
  tenant_id = 1;
  user_id = 20;
  type = NotificationType.order_confirmation;
  payload = record { order_id = 30; item_count = 1; total_cents = 500; currency = "KES" };
  status = NotificationStatus.pending;
  attempts = 0;
  last_error = none;
  created_at = 90;
  sent_at = none;
}

abbrev outbox : Db
outbox = record tables { notifications = enqueued ∷ [] }

abbrev body_of : Payload → String
body_of payload = payload.currency

one_sent : (process_pending body_of 10 calm_env (world_of outbox)).0 ≡ ok 1
unfolding process_pending NotificationRepo.list_pending order_by select_where UserRepo.get_by_id
    select_first NotificationRepo.mark_sent count_where
one_sent = refl

process_pending_bounded_example :
    Sent body_of outbox.users
      (pending_of 10 outbox)
      []
      (process_pending body_of 10 calm_env (world_of outbox)).1.emails
    × (0 + 1 ≤ mails (process_pending body_of 10 calm_env (world_of outbox)).1)
    × (mails (process_pending body_of 10 calm_env (world_of outbox)).1
        ≤ 0 + length (pending_of 10 outbox))
    × (length (pending_of 10 outbox) ≤ 10)
process_pending_bounded_example =
    process_pending_bounded body_of 10 calm_env (world_of outbox) {sent = 1} one_sent
