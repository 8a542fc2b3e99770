-- ===== src/Ordering/Create.antt =====
-- Service.CreateOrder.
use ticketing_backend.Prelude.{
  ℕ, ◌+◌, String, not, ◌&&◌, Option, none, some, List, [], ◌∷◌, ◌++◌, ◌==◌, ltb, leb, is_value,
  if◌then◌else◌,
}
use ticketing_backend.Domain.Amounts.{Money, add}
use ticketing_backend.Domain.Events.{EventTicketCategory}
use ticketing_backend.Domain.{
  Error, Result, ok, err, EventSeatInventory, is_held, Order, OrderItem, OrderStatus, nil_uuid,
}
use ticketing_backend.Store.InventoryRepo
use ticketing_backend.Store.OrderRepo
use ticketing_backend.Store.EventRepo
use ticketing_backend.Store.Action.{
  World, Env, Action, pure, guard, or_fail, ◌>>=◌, ◌>>◌, now, new_uuid, with_tx,
}

pub record HeldItem : Type 0 where
  pub inventory_id : ℕ
  pub hold_token : ℕ

-- The variables of the loop over the items. A Go map is a function, and `index` is the loop's `i`.
pub record Draft : Type 0 where
  pub index : ℕ
  pub category_cache : ℕ → Option (List EventTicketCategory)
  pub category_count : ℕ → ℕ
  pub subtotal : Money
  pub tightest_expiry : Option ℕ
  pub order_items : List OrderItem

abbrev pub empty_draft : Draft
empty_draft = record {
  index = 0;
  category_cache = λ _. none;
  category_count = λ _. 0;
  subtotal = record { cents = 0; currency = "" };
  tightest_expiry = none;
  order_items = [];
}

abbrev pub put {ℓ} : {A : Type ℓ} → ℕ → A → (ℕ → A) → ℕ → A
put k v f j = if k == j then v else f j

-- row.HoldExpiresAt != nil && row.HoldExpiresAt.Before(time.Now()): the clock is read only if
-- there is an expiry.
unfoldable pub check_expiry : Option ℕ → Action (Unit {0})
check_expiry none = pure tt
check_expiry (some t) = do instant ← now; guard (not (ltb t instant)) Error.expired

abbrev pub tighter : Option ℕ → Option ℕ → Option ℕ
tighter none expires = expires
tighter (some t) none = some t
tighter (some t) (some x) = if ltb x t then some x else some t

-- The cached categories of the event, or those of the repository, which are then cached.
unfoldable pub load_categories : ℕ → ℕ → Draft → Action (List EventTicketCategory × Draft)
load_categories tenant_id event_id d = elim (d.category_cache event_id) [
  | some categories ↦ pure (categories, d)
  | none ↦ do
    categories ← EventRepo.list_ticket_categories tenant_id event_id
    pure (categories, record d { category_cache = put event_id (some categories) d.category_cache })
]

unfoldable pub find_category : ℕ → List EventTicketCategory → Option EventTicketCategory
find_category id [] = none
find_category id (c ∷ cs) = if c.id == id then some c else find_category id cs

-- The price of the first item, or the sum with it.
abbrev pub add_price : ℕ → Money → Money → Option Money
add_price index subtotal price = if index == 0 then some price else add subtotal price

abbrev pub count_up : ℕ → Draft → Draft
count_up category d = record d {
  category_count = put category (d.category_count category + 1) d.category_count;
}

abbrev pub order_item : ℕ → ℕ → EventSeatInventory → HeldItem → Money → OrderItem
order_item id tenant_id row item price = record {
  id = id;
  tenant_id = tenant_id;
  order_id = nil_uuid;
  event_seat_inventory_id = row.id;
  hold_token = item.hold_token;
  unit_price = price;
  created_at = 0;
}

-- From the category that the row names to the item of the order.
unfoldable pub price_row :
    ℕ → HeldItem → EventSeatInventory → List EventTicketCategory → Draft → Action Draft
unfolding find_category
price_row tenant_id item row categories d = do
  category ← or_fail (find_category row.event_ticket_category_id categories) Error.other
  let count = d.category_count row.event_ticket_category_id + 1
  guard (leb count category.max_per_order) Error.invalid_input
  subtotal ← or_fail (add_price d.index d.subtotal category.price) Error.invalid_input
  id ← new_uuid
  pure (record (count_up row.event_ticket_category_id d) {
    index = d.index + 1;
    subtotal = subtotal;
    order_items = d.order_items ++ order_item id tenant_id row item category.price ∷ [];
  })

-- The body of the loop.
unfoldable pub add_item : ℕ → HeldItem → Draft → Action Draft
unfolding check_expiry load_categories price_row
add_item tenant_id item d = do
  row ← InventoryRepo.get_by_id tenant_id item.inventory_id
  guard (is_held row.status && is_value row.hold_token item.hold_token) Error.expired
  check_expiry row.hold_expires_at
  let d' = record d { tightest_expiry = tighter d.tightest_expiry row.hold_expires_at }
  loaded ← load_categories tenant_id row.event_id d'
  price_row tenant_id item row loaded.0 loaded.1

unfoldable pub add_items : ℕ → List HeldItem → Draft → Action Draft
add_items tenant_id [] d = pure d
add_items tenant_id (item ∷ items) d = do
  d' ← add_item tenant_id item d
  add_items tenant_id items d'

abbrev pub set_order_id : ℕ → List OrderItem → List OrderItem
set_order_id id [] = []
set_order_id id (it ∷ its) = record it { order_id = id } ∷ set_order_id id its

-- The order that a priced draft becomes; `created_at` is the table's to set.
abbrev pub new_order : ℕ → ℕ → ℕ → String → Money → Money → Draft → Order
new_order id tenant_id user_id key fees total d = record {
  id = id;
  tenant_id = tenant_id;
  user_id = user_id;
  status = OrderStatus.pending;
  idempotency_key = key;
  subtotal = d.subtotal;
  fees = fees;
  total = total;
  expires_at = d.tightest_expiry;
  created_at = 0;
}

-- What the transaction does once the items are priced.
unfoldable pub store_order : ℕ → ℕ → String → Draft → Action Order
store_order tenant_id user_id key d = do
  let fees : Money = record { cents = 0; currency = d.subtotal.currency }
  total ← or_fail (add d.subtotal fees) Error.invalid_input
  id ← new_uuid
  let order = new_order id tenant_id user_id key fees total d
  OrderRepo.create_with_items order (set_order_id id d.order_items)

unfoldable pub order_tx : ℕ → ℕ → String → List HeldItem → Action Order
unfolding add_items store_order
order_tx tenant_id user_id key items = do
  d ← add_items tenant_id items empty_draft
  store_order tenant_id user_id key d

abbrev pub otherwise : Result Order → Action Order → Env → World → Result Order × World
otherwise (ok existing) create env w = (ok existing, w)
otherwise (err Error.not_found) create env w = create env w
otherwise (err e) create env w = (err e, w)

unfoldable pub create_order : ℕ → ℕ → String → List HeldItem → Action Order
create_order tenant_id user_id key [] env w = (err Error.invalid_input, w)
create_order tenant_id user_id key (item ∷ items) env w =
    let (found, w') = OrderRepo.get_by_idempotency_key tenant_id key env w in
    otherwise found (with_tx (order_tx tenant_id user_id key (item ∷ items))) env w'
