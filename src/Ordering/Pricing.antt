-- ===== src/Ordering/Pricing.antt =====
-- The loop of CreateOrder: the items that it adds and their prices, and the tables after it.
use ticketing_backend.Prelude.{
  ℕ, ◌+◌, ◌≡◌, refl, sym, ◌∙◌, ap, subst, true, Option, none, some, List, [], ◌∷◌, ◌++◌, arith,
  Option-cases, inl, inr, append-nil, append_assoc,
}
use ticketing_backend.Domain.Amounts.{Money}
use ticketing_backend.Domain.Events.{EventTicketCategory}
use ticketing_backend.Domain.{Error, ok, EventSeatInventory, OrderItem}
use ticketing_backend.Store.Action.{Db, World, Env, Action, guard, guard-ok, bind-ok, ◌>>=◌, ◌>>◌}
use ticketing_backend.Store.Inventory
use ticketing_backend.Store.Inventory.{holds}
use ticketing_backend.Store.InventoryRepo
use ticketing_backend.Store.EventRepo.{categories_of}
use ticketing_backend.Ordering.Create.{
  HeldItem, Draft, check_expiry, tighter, load_categories, find_category, add_price, order_item,
  price_row, add_item, add_items,
}
use ticketing_backend.Ordering.Categories.{IsFresh, load_categories-ok}

-- The item of the order for a held item: the unit is held by the given token, and the price is
-- that of the unit's category among the categories of the unit's event.
abbrev pub IsPriced : ℕ → Db → HeldItem → OrderItem → Type 0
IsPriced t db item it =
    (row : EventSeatInventory) × (category : EventTicketCategory) × (Inventory.get_by_id t
        item.inventory_id db.inventory
      ≡ some row)
    × (holds item.hold_token row ≡ true)
    × (find_category row.event_ticket_category_id (categories_of t row.event_id db) ≡ some category)
    × (it.unit_price ≡ category.price)
    × (it.event_seat_inventory_id ≡ row.id)
    × (it.hold_token ≡ item.hold_token)

abbrev pub ArePriced : ℕ → Db → List HeldItem → List OrderItem → Type 0
ArePriced t db [] [] = Unit
ArePriced t db (item ∷ items) (it ∷ its) = IsPriced t db item it × ArePriced t db items its
ArePriced t db [] (it ∷ its) = ⊥
ArePriced t db (item ∷ items) [] = ⊥

-- The running subtotal over the prices of items.
abbrev pub subtotal_of : ℕ → Money → List OrderItem → Option Money
subtotal_of index m [] = some m
subtotal_of index m (it ∷ its) = elim (add_price index m it.unit_price) [
  | none ↦ none
  | some m' ↦ subtotal_of (index + 1) m' its
]

-- What pricing one row adds to the draft.
price_row-ok :
    (t : ℕ) (item : HeldItem) (row : EventSeatInventory) (cs : List EventTicketCategory) (d : Draft)
    (env : Env) (w : World) {d' : Draft}
    → (price_row t item row cs d env w).0 ≡ ok d'
    → (category : EventTicketCategory) × (it : OrderItem) × (find_category
          row.event_ticket_category_id cs
        ≡ some category)
      × (it.unit_price ≡ category.price)
      × (it.event_seat_inventory_id ≡ row.id)
      × (it.hold_token ≡ item.hold_token)
      × (d'.order_items ≡ d.order_items ++ it ∷ [])
      × (add_price d.index d.subtotal category.price ≡ some d'.subtotal)
      × (d'.index ≡ d.index + 1)
      × (d'.category_cache ≡ d.category_cache)
      × ((price_row t item row cs d env w).1.db ≡ w.db)
unfolding price_row
price_row-ok t item row cs d env w {d'} h =
    elim (Option-cases (find_category row.event_ticket_category_id cs)) [
      | inl missing ↦ absurd (ground arith)
      | inr (c, found) ↦ (
        c,
        order_item (env.new_uuid w.tick) t row item c.price,
        found,
        ground arith,
        refl,
        refl,
        ground arith,
        ground arith,
        ground arith,
        ground arith,
        ground arith,
      )
    ]

check_expiry_db : (x : Option ℕ) (env : Env) (w : World) → (check_expiry x env w).1.db ≡ w.db
unfolding check_expiry
check_expiry_db x env w = ground arith

get_by_id-ok :
    (t id : ℕ) (env : Env) (w : World) {row : EventSeatInventory}
    → (InventoryRepo.get_by_id t id env w).0 ≡ ok row
    → (Inventory.get_by_id t id w.db.inventory ≡ some row)
      × ((InventoryRepo.get_by_id t id env w).1.db ≡ w.db)
unfolding InventoryRepo.get_by_id
get_by_id-ok t id env w h = ground arith

-- What an item that is added is, and what the draft then holds.
abbrev IsAdded : ℕ → Db → HeldItem → Draft → Draft → Type 0
IsAdded t db item d d' =
    (it : OrderItem) × IsPriced t db item it
    × (d'.order_items ≡ d.order_items ++ it ∷ [])
    × (add_price d.index d.subtotal it.unit_price ≡ some d'.subtotal)
    × (d'.index ≡ d.index + 1)

-- The body of the loop from the loading of the categories on, and from the guard on.
abbrev rest_of_item : ℕ → HeldItem → EventSeatInventory → Draft → Action Draft
rest_of_item t item row d =
    load_categories t row.event_id d >>= λ loaded. price_row t item row loaded.0 loaded.1

abbrev with_expiry : EventSeatInventory → Draft → Draft
with_expiry row d = record d { tightest_expiry = tighter d.tightest_expiry row.hold_expires_at }

abbrev after_guard : ℕ → HeldItem → EventSeatInventory → Draft → Action Draft
after_guard t item row d =
    check_expiry row.hold_expires_at >> rest_of_item t item row (with_expiry row d)

abbrev after_read : ℕ → HeldItem → Draft → EventSeatInventory → Action Draft
after_read t item d row =
    guard (holds item.hold_token row) Error.expired >> after_guard t item row d

rest_of_item-ok :
    (t : ℕ) (item : HeldItem) (row : EventSeatInventory) (d : Draft) (env : Env) (w : World)
    {d' : Draft}
    → IsFresh t w.db d
    → (Inventory.get_by_id t item.inventory_id w.db.inventory ≡ some row)
    → (holds item.hold_token row ≡ true)
    → (rest_of_item t item row d env w).0 ≡ ok d'
    → IsAdded t w.db item d d' × IsFresh t w.db d' × ((rest_of_item t item row d env w).1.db ≡ w.db)
rest_of_item-ok t item row d env w {d'} fresh read held h =
    let (loaded, l-ok, p-ok, world) =
      bind-ok (load_categories t row.event_id d) (λ loaded. price_row t item row loaded.0 loaded.1)
        env w h in
    let (cats, fresh', (same_index, same_subtotal, same_items, same_db)) =
      load_categories-ok t row.event_id d env w fresh l-ok in
    let w' = (load_categories t row.event_id d env w).1 in
    let (c, it, found, price, unit, token, grown, sum, index, cache, db) =
      price_row-ok t item row loaded.0 loaded.1 env w' p-ok in
    let named = subst (λ cs. find_category row.event_ticket_category_id cs ≡ some c) cats found in
    (
      (
        it,
        (row, c, read, held, named, price, unit, token),
        ground arith,
        ground arith,
        ground arith,
      ),
      (λ e cs known. fresh' e cs (ap (λ f. f e) (sym cache) ∙ known)),
      ap (λ w. w.db) world ∙ db ∙ same_db,
    )

after_guard-ok :
    (t : ℕ) (item : HeldItem) (row : EventSeatInventory) (d : Draft) (env : Env) (w : World)
    {d' : Draft}
    → IsFresh t w.db d
    → (Inventory.get_by_id t item.inventory_id w.db.inventory ≡ some row)
    → (holds item.hold_token row ≡ true)
    → (after_guard t item row d env w).0 ≡ ok d'
    → IsAdded t w.db item d d' × IsFresh t w.db d' × ((after_guard t item row d env w).1.db ≡ w.db)
after_guard-ok t item row d env w {d'} fresh read held h =
    let expires = row.hold_expires_at in
    let w' = (check_expiry expires env w).1 in
    let (u, _, r-ok, world) =
      bind-ok (check_expiry expires) (λ _. rest_of_item t item row (with_expiry row d)) env w h in
    let same = check_expiry_db expires env w in
    let (added, fresh', db) =
      rest_of_item-ok t item row (with_expiry row d) env w'
        (subst (λ x. IsFresh t x (with_expiry row d)) (sym same) fresh)
        (ap (λ x. Inventory.get_by_id t item.inventory_id x.inventory) same ∙ read) held r-ok in
    (
      subst (λ x. IsAdded t x item d d') same added,
      subst (λ x. IsFresh t x d') same fresh',
      ap (λ w. w.db) world ∙ db ∙ same,
    )

pub add_item-ok :
    (t : ℕ) (item : HeldItem) (d : Draft) (env : Env) (w : World) {d' : Draft}
    → IsFresh t w.db d
    → (add_item t item d env w).0 ≡ ok d'
    → IsAdded t w.db item d d' × IsFresh t w.db d' × ((add_item t item d env w).1.db ≡ w.db)
unfolding add_item
add_item-ok t item d env w {d'} fresh h =
    let w1 = (InventoryRepo.get_by_id t item.inventory_id env w).1 in
    let (row, r-ok, h1, q1) =
      bind-ok (InventoryRepo.get_by_id t item.inventory_id) (after_read t item d) env w h in
    let (read, db1) = get_by_id-ok t item.inventory_id env w r-ok in
    let (u, g-ok, h2, q2) =
      bind-ok (guard (holds item.hold_token row) Error.expired) (λ _. after_guard t item row d) env
        w1 h1 in
    let (held, same) = guard-ok (holds item.hold_token row) Error.expired env w1 g-ok in
    let (added, fresh', db) =
      after_guard-ok t item row d env w1 (subst (λ x. IsFresh t x d) (sym db1) fresh)
        (ap (λ x. Inventory.get_by_id t item.inventory_id x.inventory) db1 ∙ read) held
        (subst (λ w. (after_guard t item row d env w).0 ≡ ok d') same h2) in
    (
      subst (λ x. IsAdded t x item d d') db1 added,
      subst (λ x. IsFresh t x d') db1 fresh',
      ap (λ w. w.db) (q1 ∙ q2) ∙ ap (λ w. (after_guard t item row d env w).1.db) same ∙ db ∙ db1,
    )

subtotal_of_step :
    (index : ℕ) (m price s : Money) (its : List OrderItem) (it : OrderItem)
    → (it.unit_price ≡ price)
    → (add_price index m price ≡ some s)
    → subtotal_of index m (it ∷ its) ≡ subtotal_of (index + 1) s its
subtotal_of_step index m price s its it same sum = ground arith

pub add_items-ok :
    (t : ℕ) (items : List HeldItem) (d : Draft) (env : Env) (w : World) {d' : Draft}
    → IsFresh t w.db d
    → (add_items t items d env w).0 ≡ ok d'
    → ((its : List OrderItem) × ArePriced t w.db items its
        × (d'.order_items ≡ d.order_items ++ its)
        × (subtotal_of d.index d.subtotal its ≡ some d'.subtotal))
      × ((add_items t items d env w).1.db ≡ w.db)
unfolding add_items
add_items-ok t [] d env w {d'} fresh h =
    (([], tt, ground arith ∙ sym (append-nil d.order_items), ground arith), refl)
add_items-ok t (item ∷ items) d env w {d'} fresh h =
    let (mid, m-ok, rest, q) = bind-ok (add_item t item d) (λ d. add_items t items d) env w h in
    let w' = (add_item t item d env w).1 in
    let ((it, priced, grown, sum, index), fresh', db) = add_item-ok t item d env w fresh m-ok in
    let ((its, priceds, grown', sum'), db') =
      add_items-ok t items mid env w' (subst (λ x. IsFresh t x mid) (sym db) fresh') rest in
    (
      (
        it ∷ its,
        (priced, subst (λ x. ArePriced t x items its) db priceds),
        grown' ∙ ap (λ l. l ++ its) grown ∙ append_assoc d.order_items (it ∷ []) its,
        subtotal_of_step d.index d.subtotal it.unit_price mid.subtotal its it refl sum
            ∙ ap (λ i. subtotal_of i mid.subtotal its) (sym index)
            ∙ sum',
      ),
      ap (λ w. w.db) q ∙ db' ∙ db,
    )
