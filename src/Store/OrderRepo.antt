-- ===== src/Store/OrderRepo.antt =====
-- internal/repository/postgres/order.go: the tables orders and order_items.
use mathlib.Core.List.{reverse}
use ticketing_backend.Prelude.{
  ℕ, String, Bool, ◌&&◌, ◌||◌, Option, none, some, List, [], ◌∷◌, ◌++◌, ◌==◌, if◌then◌else◌, take,
  drop, str_eq,
}
use ticketing_backend.Domain.Amounts.{is_negative}
use ticketing_backend.Domain.{Error, Result, ok, err, Order, OrderItem, OrderStatus}
use ticketing_backend.Sql.{update_where, count_where, select_first, select_where, order_by}
use ticketing_backend.Store.Inventory.{is_unit}
use ticketing_backend.Store.Action.{
  Db, Action, pure, ◌>>=◌, ◌>>◌, exec, exec_at, with_id, or_not_found,
}

abbrev pub is_order : ℕ → ℕ → Order → Bool
is_order tenant_id id o = o.id == id && o.tenant_id == tenant_id

abbrev pub has_key : ℕ → String → Order → Bool
has_key tenant_id key o = o.tenant_id == tenant_id && str_eq o.idempotency_key key

-- The row as scanOrder reads it back: the three amounts share the total's currency.
abbrev pub stored_order : ℕ → Order → Order
stored_order now o = record o {
  subtotal = record { cents = o.subtotal.cents; currency = o.total.currency };
  fees = record { cents = o.fees.cents; currency = o.total.currency };
  created_at = now;
}

-- CHECK (… >= 0) on the three amounts
abbrev pub has_negative_amount : Order → Bool
has_negative_amount o =
    is_negative o.subtotal.cents || is_negative o.fees.cents || is_negative o.total.cents

-- The PRIMARY KEY, and UNIQUE (tenant_id, idempotency_key)
abbrev pub order_collides : Order → Order → Bool
order_collides new o = o.id == new.id || has_key new.tenant_id new.idempotency_key o

unfoldable pub insert_order : ℕ → Order → Db → Result (Unit {0}) × Db
insert_order now new db =
    if has_negative_amount new
    then (err Error.other, db)
    else if count_where (order_collides new) db.orders == 0
    then (ok tt, record db { orders = db.orders ++ stored_order now new ∷ [] })
    else (err Error.conflict, db)

abbrev pub is_item : ℕ → OrderItem → Bool
is_item id it = it.id == id

-- One INSERT INTO order_items; `none` is a violated CHECK, PRIMARY KEY or foreign key.
unfoldable pub insert_item : OrderItem → Db → Option Db
insert_item it db =
    if is_negative it.unit_price.cents
    then none
    else if count_where (is_item it.id) db.order_items == 0
    then (if count_where (is_unit it.tenant_id it.event_seat_inventory_id) db.inventory == 0
        then none
        else some (record db { order_items = db.order_items ++ it ∷ [] }))
    else none

unfoldable pub insert_items : List OrderItem → Db → Option Db
unfolding insert_item
insert_items [] db = some db
insert_items (it ∷ its) db = elim (insert_item it db) [
  | none ↦ none
  | some db' ↦ insert_items its db'
]

-- The rows of the batch: the order's identifier and tenant, and a fresh identifier for a Nil one.
unfoldable pub item_rows : ℕ → ℕ → List OrderItem → Action (List OrderItem)
item_rows tenant_id order_id [] = pure []
item_rows tenant_id order_id (it ∷ its) = do
  id ← with_id it.id
  rest ← item_rows tenant_id order_id its
  pure (record it { id = id; tenant_id = tenant_id; order_id = order_id } ∷ rest)

abbrev pub stamp : ℕ → List OrderItem → List OrderItem
stamp now [] = []
stamp now (it ∷ its) = record it { created_at = now } ∷ stamp now its

abbrev pub items_inserted : Db → Option Db → Result (Unit {0}) × Db
items_inserted db none = (err Error.other, db)
items_inserted db (some db') = (ok tt, db')

unfoldable pub insert_all_items : ℕ → ℕ → List OrderItem → Action (Unit {0})
unfolding item_rows insert_items
insert_all_items tenant_id order_id [] = pure tt
insert_all_items tenant_id order_id (it ∷ its) = do
  rows ← item_rows tenant_id order_id (it ∷ its)
  exec_at λ now db. items_inserted db (insert_items (stamp now rows) db)

-- The result is the order with the identifier that the pointer's target has afterwards.
unfoldable pub create_with_items : Order → List OrderItem → Action Order
unfolding insert_order insert_all_items
create_with_items order items = do
  id ← with_id order.id
  exec_at (λ now. insert_order now (record order { id = id }))
  insert_all_items order.tenant_id id items
  pure (record order { id = id })

unfoldable pub get_by_id : ℕ → ℕ → Action Order
get_by_id tenant_id id =
    exec λ db. (or_not_found (select_first (is_order tenant_id id) db.orders), db)

unfoldable pub get_by_idempotency_key : ℕ → String → Action Order
get_by_idempotency_key tenant_id key =
    exec λ db. (or_not_found (select_first (has_key tenant_id key) db.orders), db)

abbrev pub is_item_of : ℕ → ℕ → OrderItem → Bool
is_item_of tenant_id order_id it = it.tenant_id == tenant_id && it.order_id == order_id

abbrev pub items_of : ℕ → ℕ → Db → List OrderItem
items_of tenant_id order_id db =
    order_by (λ it. it.created_at) (select_where (is_item_of tenant_id order_id) db.order_items)

unfoldable pub list_items : ℕ → ℕ → Action (List OrderItem)
list_items tenant_id order_id = exec λ db. (ok (items_of tenant_id order_id db), db)

abbrev pub set_status : OrderStatus → Order → Order
set_status status o = record o { status = status }

unfoldable pub update_status : ℕ → ℕ → OrderStatus → Action (Unit {0})
update_status tenant_id id status = exec λ db. (
  if count_where (is_order tenant_id id) db.orders == 0 then err Error.not_found else ok tt,
  record db { orders = update_where (is_order tenant_id id) (set_status status) db.orders },
)

-- ORDER BY created_at DESC LIMIT … OFFSET …
unfoldable pub list_by_user : ℕ → ℕ → ℕ → ℕ → Action (List Order)
list_by_user tenant_id user_id limit offset = exec λ db.
    let mine = select_where (λ o. o.tenant_id == tenant_id && o.user_id == user_id) db.orders in
    (ok (take limit (drop offset (reverse (order_by (λ o. o.created_at) mine)))), db)
