-- ===== src/System/OrderStatements.antt =====
-- The statements of the order and payment repositories, none of which changes
-- event_seat_inventory.
use ticketing_backend.Prelude.{
  ℕ, ◌≡◌, refl, inl, inr, arith, String, Option, List, [], ◌∷◌, Option-cases,
}
use ticketing_backend.Domain.{Order, OrderItem, OrderStatus, Payment, PaymentStatus}
use ticketing_backend.Store.Action.{Db}
use ticketing_backend.Store.OrderRepo
use ticketing_backend.Store.PaymentRepo
use ticketing_backend.System.Statements.{IsQuiet}
use ticketing_backend.System.Histories.{
  quietly, bind-Sends, exec_quiet, end-Sends, exec_at_quiet, with_id-Sends, inventory_of,
}

pub create_payment-Sends : (p : Payment) → IsQuiet (PaymentRepo.create p)
unfolding PaymentRepo.create PaymentRepo.insert_payment
create_payment-Sends p = quietly inventory_of λ env w. ground arith

pub get_payment-Sends : (t id : ℕ) → IsQuiet (PaymentRepo.get_by_id t id)
unfolding PaymentRepo.get_by_id
get_payment-Sends t id = exec_quiet _ λ db. refl

pub payment_of_key-Sends :
    (t : ℕ) (key : String) → IsQuiet (PaymentRepo.get_by_idempotency_key t key)
unfolding PaymentRepo.get_by_idempotency_key
payment_of_key-Sends t key = exec_quiet _ λ db. refl

pub set_payment-Sends :
    (t id : ℕ) (status : PaymentStatus) (provider_id : String) (raw : Option String)
    → IsQuiet (PaymentRepo.update_status t id status provider_id raw)
unfolding PaymentRepo.update_status
set_payment-Sends t id status provider_id raw = exec_quiet _ λ db. refl

pub get_order-Sends : (t id : ℕ) → IsQuiet (OrderRepo.get_by_id t id)
unfolding OrderRepo.get_by_id
get_order-Sends t id = exec_quiet _ λ db. refl

pub order_of_key-Sends : (t : ℕ) (key : String) → IsQuiet (OrderRepo.get_by_idempotency_key t key)
unfolding OrderRepo.get_by_idempotency_key
order_of_key-Sends t key = exec_quiet _ λ db. refl

pub list_items-Sends : (t id : ℕ) → IsQuiet (OrderRepo.list_items t id)
unfolding OrderRepo.list_items
list_items-Sends t id = exec_quiet _ λ db. refl

pub set_order-Sends :
    (t id : ℕ) (status : OrderStatus) → IsQuiet (OrderRepo.update_status t id status)
unfolding OrderRepo.update_status
set_order-Sends t id status = exec_quiet _ λ db. refl

pub list_by_user-Sends :
    (t user limit offset : ℕ) → IsQuiet (OrderRepo.list_by_user t user limit offset)
unfolding OrderRepo.list_by_user
list_by_user-Sends t user limit offset = exec_quiet _ λ db. refl

item_rows-Sends : (t order : ℕ) (its : List OrderItem) → IsQuiet (OrderRepo.item_rows t order its)
unfolding OrderRepo.item_rows
item_rows-Sends t order [] = end-Sends inventory_of _
item_rows-Sends t order (it ∷ its) =
    bind-Sends inventory_of (with_id-Sends it.id)
      λ id. bind-Sends inventory_of (item_rows-Sends t order its) λ rest. end-Sends inventory_of _

insert_items_quiet :
    (its : List OrderItem) (db : Db)
    → (OrderRepo.items_inserted db (OrderRepo.insert_items its db)).1.inventory ≡ db.inventory
unfolding OrderRepo.insert_items OrderRepo.insert_item
insert_items_quiet [] db = refl
insert_items_quiet (it ∷ its) db = elim (Option-cases (OrderRepo.insert_item it db)) [
  | inl refused ↦ ground arith
  | inr (db', taken) ↦ ground (arith, insert_items_quiet its db')
]

insert_all_items-Sends :
    (t order : ℕ) (its : List OrderItem) → IsQuiet (OrderRepo.insert_all_items t order its)
unfolding OrderRepo.insert_all_items
insert_all_items-Sends t order [] = end-Sends inventory_of _
insert_all_items-Sends t order (it ∷ its) =
    bind-Sends inventory_of (item_rows-Sends t order (it ∷ its)) λ rows.
      exec_at_quiet
        (λ now db.
          OrderRepo.items_inserted db (OrderRepo.insert_items (OrderRepo.stamp now rows) db))
        λ now db. insert_items_quiet (OrderRepo.stamp now rows) db

pub create_order-Sends :
    (o : Order) (its : List OrderItem) → IsQuiet (OrderRepo.create_with_items o its)
unfolding OrderRepo.create_with_items OrderRepo.insert_order
create_order-Sends o its = bind-Sends inventory_of (with_id-Sends o.id) λ id.
    bind-Sends inventory_of
      (exec_at_quiet (λ now. OrderRepo.insert_order now (record o { id = id }))
        λ now db. ground arith)
      λ _.
        bind-Sends inventory_of (insert_all_items-Sends o.tenant_id id its)
          λ _. end-Sends inventory_of _
