-- ===== src/Ordering/Checkout.antt =====
-- What CreateOrder returns and what it leaves in the tables.
use ticketing_backend.Prelude.{
  ℕ, ◌+◌, ◌++◌, All, subst, ◌≡◌, refl, sym, ◌∙◌, ap, String, Option, none, some, List, [], ◌∷◌,
  arith, Bool-cases, Option-cases, inl, inr,
}
use ticketing_backend.Domain.Amounts.{Money, add}
use ticketing_backend.Domain.{Error, ok, err, Order, OrderItem, OrderStatus}
use ticketing_backend.Sql.{select_first}
use ticketing_backend.Store.Action.{
  Db, World, Env, next, bind-ok, Result-cases, with_tx, with_tx-err, with_tx-ok,
}
use ticketing_backend.Store.OrderRepo
use ticketing_backend.Store.OrderRepo.{
  has_key, stored_order, insert_order, insert_item, insert_items, stamp, items_inserted, item_rows,
  insert_all_items,
}
use ticketing_backend.Ordering.Create.{
  HeldItem, Draft, empty_draft, new_order, set_order_id, add_items, store_order, order_tx,
  create_order, add_price,
}
use ticketing_backend.Ordering.Pricing.{ArePriced, subtotal_of, add_items-ok}
use ticketing_backend.Ordering.Stored.{
  AreRowsOf, HasRows, create_with_items-ok, create_with_items-rows,
}

-- The order that is stored from a priced draft.
abbrev pub IsOrderOf : ℕ → ℕ → String → Draft → Order → Type 0
IsOrderOf t u key d o =
    (o.tenant_id ≡ t)
    × (o.user_id ≡ u)
    × (o.idempotency_key ≡ key)
    × (o.status ≡ OrderStatus.pending)
    × (o.subtotal ≡ d.subtotal)
    × (o.fees.cents ≡ 0)
    × (add o.subtotal o.fees ≡ some o.total)

abbrev fees_of : Draft → Money
fees_of d = record { cents = 0; currency = d.subtotal.currency }

abbrev pub is_known : ℕ → String → Db → Option Order
is_known t key db = select_first (has_key t key) db.orders

-- The row that the key finds is the order, as its table stores it.
abbrev pub IsStored : ℕ → String → Order → Db → Type 0
IsStored t key o db = (now : ℕ) × (is_known t key db ≡ some (stored_order now o))

-- The items' own column for the order is overwritten by the INSERT.
set_order_id-AreRowsOf :
    (t o id : ℕ) (its rows : List OrderItem)
    → AreRowsOf t o (set_order_id id its) rows
    → AreRowsOf t o its rows
set_order_id-AreRowsOf t o id [] [] are = tt
set_order_id-AreRowsOf t o id [] (row ∷ rows) are = absurd are
set_order_id-AreRowsOf t o id (it ∷ its) [] are = absurd are
set_order_id-AreRowsOf t o id (it ∷ its) (row ∷ rows) are =
    (are.0, set_order_id-AreRowsOf t o id its rows are.1)

store_order-ok :
    (t u : ℕ) (key : String) (d : Draft) (env : Env) (w : World) {o : Order}
    → (is_known t key w.db ≡ none)
    → (store_order t u key d env w).0 ≡ ok o
    → IsOrderOf t u key d o
      × IsStored t key o (store_order t u key d env w).1.db
      × HasRows t o.id d.order_items w.db (store_order t u key d env w).1.db
unfolding store_order
store_order-ok t u key d env w {o} unknown h = elim (Option-cases (add d.subtotal (fees_of d))) [
  | inl overflow ↦ absurd (ground arith)
  | inr (total, sum) ↦
      let order = new_order (env.new_uuid w.tick) t u key (fees_of d) total d in
      let (same, (now, found)) =
        create_with_items-ok order (set_order_id order.id d.order_items) env (next w) {o = o}
          unknown (ground arith) in
      let (rows, are, added) =
        create_with_items-rows order (set_order_id order.id d.order_items) env (next w) {o = o}
          (ground arith) in
      (
        (
          ground arith,
          ground arith,
          ground arith,
          ground arith,
          ground arith,
          ground arith,
          ground arith,
        ),
        (now, ground (arith, found)),
        (
          rows,
          set_order_id-AreRowsOf t o.id order.id d.order_items rows are,
          ground (arith, added),
        ),
      )
]

-- Rows that stand for priced items are priced the same.
AreRowsOf-ArePriced :
    (t o : ℕ) (db : Db) (items : List HeldItem) (its rows : List OrderItem)
    → AreRowsOf t o its rows
    → ArePriced t db items its
    → ArePriced t db items rows
AreRowsOf-ArePriced t o db [] [] [] are priced = tt
AreRowsOf-ArePriced t o db [] [] (row ∷ rows) are priced = absurd are
AreRowsOf-ArePriced t o db [] (it ∷ its) rows are priced = absurd priced
AreRowsOf-ArePriced t o db (item ∷ items) [] rows are priced = absurd priced
AreRowsOf-ArePriced t o db (item ∷ items) (it ∷ its) [] are priced = absurd are
AreRowsOf-ArePriced t o db (item ∷ items) (it ∷ its) (row ∷ rows) ((seat, token, price, _, _), are)
      ((unit, category, found, held, named, cost, id, hold), priced) =
    (
      (unit, category, found, held, named, price ∙ cost, seat ∙ id, token ∙ hold),
      AreRowsOf-ArePriced t o db items its rows are priced,
    )

AreRowsOf-subtotal :
    (t o index : ℕ) (m : Money) (its rows : List OrderItem)
    → AreRowsOf t o its rows
    → subtotal_of index m rows ≡ subtotal_of index m its
AreRowsOf-subtotal t o index m [] [] are = refl
AreRowsOf-subtotal t o index m [] (row ∷ rows) are = absurd are
AreRowsOf-subtotal t o index m (it ∷ its) [] are = absurd are
AreRowsOf-subtotal t o index m (it ∷ its) (row ∷ rows) are =
    let price : row.unit_price ≡ it.unit_price = are.0.2 in
    elim (Option-cases (add_price index m it.unit_price)) [
      | inl overflow ↦ ground arith
      | inr (m', sum) ↦ ground (arith, AreRowsOf-subtotal t o (index + 1) m' its rows are.1)
    ]

-- Each row names the order and the tenant.
abbrev pub AreOf : ℕ → ℕ → List OrderItem → Type 0
AreOf t o rows = All (λ row. (row.order_id ≡ o) × (row.tenant_id ≡ t)) rows

AreRowsOf-AreOf : (t o : ℕ) (its rows : List OrderItem) → AreRowsOf t o its rows → AreOf t o rows
AreRowsOf-AreOf t o [] [] are = tt
AreRowsOf-AreOf t o [] (row ∷ rows) are = absurd are
AreRowsOf-AreOf t o (it ∷ its) [] are = absurd are
AreRowsOf-AreOf t o (it ∷ its) (row ∷ rows) ((_, _, _, order, tenant), are) =
    ((order, tenant), AreRowsOf-AreOf t o its rows are)

module _ (t u : ℕ) (key : String) (items : List HeldItem) where
  -- The order was priced from held units, at their categories' prices, and its items are stored.
  abbrev pub IsPricedOrder : Db → Db → Order → Type 0
  IsPricedOrder before after o =
      (its : List OrderItem) × (after.order_items ≡ before.order_items ++ its)
      × AreOf t o.id its
      × ArePriced t before items its
      × (subtotal_of 0 (record { cents = 0; currency = "" }) its ≡ some o.subtotal)
      × (o.tenant_id ≡ t)
      × (o.user_id ≡ u)
      × (o.idempotency_key ≡ key)
      × (o.status ≡ OrderStatus.pending)
      × (o.fees.cents ≡ 0)
      × (add o.subtotal o.fees ≡ some o.total)

  order_tx-ok :
      (env : Env) (w : World) {o : Order}
      → (is_known t key w.db ≡ none)
      → (order_tx t u key items env w).0 ≡ ok o
      → IsPricedOrder w.db (order_tx t u key items env w).1.db o
        × IsStored t key o (order_tx t u key items env w).1.db
  unfolding order_tx
  order_tx-ok env w {o} unknown h =
      let (d, d-ok, s-ok, world) =
        bind-ok (add_items t items empty_draft) (λ d. store_order t u key d) env w h in
      let ((its, priced, drafted, sum), same) =
        add_items-ok t items empty_draft env w (λ e cs h. absurd (ground arith)) d-ok in
      let w1 = (add_items t items empty_draft env w).1 in
      let (
        (tenant, user, same_key, status, subtotal, fees, total),
        (now, found),
        (rows, are_drafted, grown),
      ) =
        store_order-ok t u key d env w1 (ap (is_known t key) same ∙ unknown) s-ok in
      let are = subst (λ l. AreRowsOf t o.id l rows) drafted are_drafted in
      let added : (order_tx t u key items env w).1.db.order_items ≡ w.db.order_items ++ rows =
        ap (λ w. w.db.order_items) world ∙ grown ∙ ap (λ (db : Db). db.order_items ++ rows) same in
      (
        (
          rows,
          added,
          AreRowsOf-AreOf t o.id its rows are,
          AreRowsOf-ArePriced t o.id w.db items its rows are priced,
          AreRowsOf-subtotal t o.id 0 _ its rows are ∙ sum ∙ ap some (sym subtotal),
          tenant,
          user,
          same_key,
          status,
          fees,
          total,
        ),
        (now, ap (λ w. is_known t key w.db) world ∙ found),
      )

-- Whenever CreateOrder ends in an error, every table is as it was.
pub create_order_rolls_back :
    (t u : ℕ) (key : String) (items : List HeldItem) (env : Env) (w : World) {e : Error}
    → (create_order t u key items env w).0 ≡ err e
    → (create_order t u key items env w).1.db ≡ w.db
unfolding create_order OrderRepo.get_by_idempotency_key
create_order_rolls_back t u key [] env w h = refl
create_order_rolls_back t u key (item ∷ items) env w h =
    elim (Result-cases (with_tx (order_tx t u key (item ∷ items)) env (next w)).0) [
      | inl (o, good) ↦ ground arith
      | inr (x, bad) ↦
          ground (arith, with_tx-err (order_tx t u key (item ∷ items)) env (next w) bad)
    ]

first-ok :
    (t u : ℕ) (key : String) (items : List HeldItem) (env : Env) (w : World) {o : Order}
    → (is_known t key w.db ≡ none)
    → (create_order t u key items env w).0 ≡ ok o
    → IsPricedOrder t u key items w.db (create_order t u key items env w).1.db o
      × IsStored t key o (create_order t u key items env w).1.db
unfolding create_order OrderRepo.get_by_idempotency_key
first-ok t u key [] env w unknown h = absurd (ground arith)
first-ok t u key (item ∷ items) env w {o} unknown h = elim (Bool-cases (env.fails w.tick)) [
  | inl down ↦ absurd (ground arith)
  | inr calm ↦
      let (body, same) =
        with_tx-ok (order_tx t u key (item ∷ items)) env (next w) {a = o} (ground arith) in
      let (priced, (now, found)) =
        order_tx-ok t u key (item ∷ items) env (next (next w)) {o = o} unknown body in
      let outer : (create_order t u key (item ∷ items) env w).1.db
          ≡ (with_tx (order_tx t u key (item ∷ items)) env (next w)).1.db =
        ground arith in
      (
        subst (λ (db : Db). IsPricedOrder t u key (item ∷ items) w.db db o) (sym (outer ∙ same))
            priced,
        (now, ap (is_known t key) (outer ∙ same) ∙ found),
      )
]

-- The order that CreateOrder returns for a new key is the one that its key finds from then on,
-- as the table stores it: with its identifier, its status and its total.
pub create_order_stores :
    (t u : ℕ) (key : String) (items : List HeldItem) (env : Env) (w : World) {o : Order}
    → (is_known t key w.db ≡ none)
    → (create_order t u key items env w).0 ≡ ok o
    → IsStored t key o (create_order t u key items env w).1.db
create_order_stores t u key items env w {o} unknown h =
    (first-ok t u key items env w {o = o} unknown h).1
