-- ===== src/Ordering/Stored.antt =====
-- CreateWithItems and the order that its idempotency key finds afterwards.
use ticketing_backend.Prelude.{
  ℕ, ◌≡◌, refl, sym, subst, append-nil, append_assoc, ◌∙◌, ap, Bool, true, none, some, List, [],
  ◌∷◌, ◌++◌, arith, Option-cases, inl, inr, str_eq_iff,
}
use ticketing_backend.Domain.{ok, Order, OrderItem}
use ticketing_backend.Sql.{select_first}
use ticketing_backend.Sql.Laws.{select-append_none}
use ticketing_backend.Store.Action.{
  Db, World, Env, Action, next, pure, ◌>>◌, exec_at, with_id, bind-ok, ◌>>=◌, Result-cases,
}
use ticketing_backend.Store.OrderRepo
use ticketing_backend.Store.OrderRepo.{
  has_key, stored_order, insert_order, insert_item, insert_items, stamp, items_inserted, item_rows,
  insert_all_items,
}

-- CreateWithItems from its first INSERT on, and from the INSERTs of the items on.
abbrev insert_at : Order → Action (Unit {0})
insert_at new = exec_at (λ now. insert_order now new)

abbrev after_insert : Order → List OrderItem → Action Order
after_insert new items = insert_all_items new.tenant_id new.id items >> pure new

abbrev after_id : Order → List OrderItem → ℕ → Action Order
after_id order items id =
    insert_at (record order { id = id }) >> after_insert (record order { id = id }) items

insert_items-orders :
    (its : List OrderItem) (db : Db) {db' : Db}
    → insert_items its db ≡ some db'
    → db'.orders ≡ db.orders
unfolding insert_items insert_item
insert_items-orders [] db h = ground arith
insert_items-orders (it ∷ its) db {db'} h = elim (Option-cases (insert_item it db)) [
  | inl refused ↦ absurd (ground arith)
  | inr (mid, done) ↦ ground (arith, insert_items-orders its mid {db' = db'})
]

item_rows-db :
    (t o : ℕ) (its : List OrderItem) (env : Env) (w : World) → (item_rows t o its env w).1.db ≡ w.db
unfolding item_rows
item_rows-db t o [] env w = refl
item_rows-db t o (it ∷ its) env w =
    ground (arith, item_rows-db t o its env w, item_rows-db t o its env (next w))

items_inserted-orders :
    (its : List OrderItem) (db : Db)
    → (items_inserted db (insert_items its db)).1.orders ≡ db.orders
items_inserted-orders its db = elim (Option-cases (insert_items its db)) [
  | inl refused ↦ ground arith
  | inr (db', done) ↦ ground (arith, insert_items-orders its db {db' = db'})
]

insert_all_items-orders :
    (t o : ℕ) (its : List OrderItem) (env : Env) (w : World)
    → (insert_all_items t o its env w).1.db.orders ≡ w.db.orders
unfolding insert_all_items
insert_all_items-orders t o [] env w = refl
insert_all_items-orders t o (it ∷ its) env w =
    elim (Result-cases (item_rows t o (it ∷ its) env w).0) [
      | inl (rows, good) ↦
          let w' = (item_rows t o (it ∷ its) env w).1 in
          ground (
            arith,
            items_inserted-orders (stamp (env.clock w'.tick) rows) w'.db,
            item_rows-db t o (it ∷ its) env w,
          )
      | inr (e, bad) ↦ ground (arith, item_rows-db t o (it ∷ its) env w)
    ]

select_one : {A : Type 0} (p : A → Bool) (x : A) → (p x ≡ true) → select_first p (x ∷ []) ≡ some x
unfolding select_first
select_one p x h = ground arith

has_key_self :
    (now : ℕ) (o : Order) → has_key o.tenant_id o.idempotency_key (stored_order now o) ≡ true
has_key_self now o = ground (arith, (str_eq_iff o.idempotency_key o.idempotency_key).1 refl)

insert_at-ok :
    (new : Order) (env : Env) (w : World)
    → (insert_at new env w).0 ≡ ok tt
    → (insert_at new env w).1.db.orders ≡ w.db.orders ++ stored_order (env.clock w.tick) new ∷ []
unfolding insert_order
insert_at-ok new env w h = ground arith

with_id_db : (id : ℕ) (env : Env) (w : World) → (with_id id env w).1.db ≡ w.db
with_id_db id env w = ground arith

-- The order that CreateWithItems returns is the given one with its identifier, and it is the
-- one that its key then finds.
pub create_with_items-ok :
    (order : Order) (items : List OrderItem) (env : Env) (w : World) {o : Order}
    → select_first (has_key order.tenant_id order.idempotency_key) w.db.orders ≡ none
    → (OrderRepo.create_with_items order items env w).0 ≡ ok o
    → (o ≡ record order { id = o.id })
      × ((now : ℕ) × (select_first
              (has_key order.tenant_id order.idempotency_key)
              (OrderRepo.create_with_items order items env w).1.db.orders
            ≡ some (stored_order now o)))
unfolding OrderRepo.create_with_items
create_with_items-ok order items env w {o} unknown h =
    let (id, _, h1, q1) = bind-ok (with_id order.id) (after_id order items) env w h in
    let w1 = (with_id order.id env w).1 in
    let new = record order { id = id } in
    let (_, e-ok, h2, q2) = bind-ok (insert_at new) (λ _. after_insert new items) env w1 h1 in
    let w2 = (insert_at new env w1).1 in
    let (_, _, h3, q3) =
      bind-ok (insert_all_items order.tenant_id id items) (λ _. pure new) env w2 h2 in
    let same_order : new ≡ o = ground arith in
    let orders =
      ap (λ w. w.db.orders) (q1 ∙ q2 ∙ q3)
      ∙ insert_all_items-orders order.tenant_id id items env w2
      ∙ insert_at-ok new env w1 e-ok
      ∙ ap (λ db. db.orders ++ stored_order (env.clock w1.tick) new ∷ [])
          (with_id_db order.id env w) in
    let p = has_key order.tenant_id order.idempotency_key in
    let row = stored_order (env.clock w1.tick) new in
    (
      ground arith,
      (
        env.clock w1.tick,
        ap (select_first p) orders
            ∙ select-append_none p w.db.orders (row ∷ []) unknown
            ∙ select_one p row (has_key_self (env.clock w1.tick) new)
            ∙ ap (λ o. some (stored_order (env.clock w1.tick) o)) same_order,
      ),
    )

-- The rows of an order of a tenant that stand for the items: each has the unit, the token and the
-- price of its item.
abbrev pub AreRowsOf : ℕ → ℕ → List OrderItem → List OrderItem → Type 0
AreRowsOf t o [] [] = Unit
AreRowsOf t o (it ∷ its) (row ∷ rows) =
    ((row.event_seat_inventory_id ≡ it.event_seat_inventory_id)
      × (row.hold_token ≡ it.hold_token)
      × (row.unit_price ≡ it.unit_price)
      × (row.order_id ≡ o)
      × (row.tenant_id ≡ t))
    × AreRowsOf t o its rows
AreRowsOf t o [] (row ∷ rows) = ⊥
AreRowsOf t o (it ∷ its) [] = ⊥

abbrev with_row : ℕ → ℕ → OrderItem → List OrderItem → ℕ → Action (List OrderItem)
with_row t o it its id = do
  rest ← item_rows t o its
  pure (record it { id = id; tenant_id = t; order_id = o } ∷ rest)

item_rows-ok :
    (t o : ℕ) (its : List OrderItem) (env : Env) (w : World) {rows : List OrderItem}
    → (item_rows t o its env w).0 ≡ ok rows
    → AreRowsOf t o its rows
unfolding item_rows
item_rows-ok t o [] env w {rows} h =
    let empty : [] ≡ rows = ground arith in subst (AreRowsOf t o []) empty tt
item_rows-ok t o (it ∷ its) env w {rows} h =
    let (id, _, h1, _) = bind-ok (with_id it.id) (with_row t o it its) env w h in
    let w1 = (with_id it.id env w).1 in
    let row = record it { id = id; tenant_id = t; order_id = o } in
    let (rest, good, h2, _) = bind-ok (item_rows t o its) (λ rest. pure (row ∷ rest)) env w1 h1 in
    let same : row ∷ rest ≡ rows = ground arith in
    subst (AreRowsOf t o (it ∷ its)) same
      ((refl, refl, refl, refl, refl), item_rows-ok t o its env w1 good)

stamp-AreRowsOf :
    (t o now : ℕ) (its rows : List OrderItem)
    → AreRowsOf t o its rows
    → AreRowsOf t o its (stamp now rows)
stamp-AreRowsOf t o now [] [] h = tt
stamp-AreRowsOf t o now (it ∷ its) (row ∷ rows) h = (h.0, stamp-AreRowsOf t o now its rows h.1)
stamp-AreRowsOf t o now [] (row ∷ rows) h = absurd h
stamp-AreRowsOf t o now (it ∷ its) [] h = absurd h

insert_items-rows :
    (its : List OrderItem) (db : Db) {db' : Db}
    → insert_items its db ≡ some db'
    → db'.order_items ≡ db.order_items ++ its
unfolding insert_items insert_item
insert_items-rows [] db {db'} h = ground (arith, append-nil db.order_items)
insert_items-rows (it ∷ its) db {db'} h = elim (Option-cases (insert_item it db)) [
  | inl refused ↦ absurd (ground arith)
  | inr (mid, done) ↦
      ground
        (arith, insert_items-rows its mid {db' = db'}, append_assoc db.order_items (it ∷ []) its)
]

-- What the items' INSERTs add where they succeed.
abbrev pub HasRows : ℕ → ℕ → List OrderItem → Db → Db → Type 0
HasRows t o its before after =
    (rows : List OrderItem) × AreRowsOf t o its rows
    × (after.order_items ≡ before.order_items ++ rows)

insert_all_items-ok :
    (t o : ℕ) (its : List OrderItem) (env : Env) (w : World)
    → (insert_all_items t o its env w).0 ≡ ok tt
    → HasRows t o its w.db (insert_all_items t o its env w).1.db
unfolding insert_all_items
insert_all_items-ok t o [] env w h = ([], tt, sym (append-nil w.db.order_items))
insert_all_items-ok t o (it ∷ its) env w h =
    elim (Result-cases (item_rows t o (it ∷ its) env w).0) [
      | inr (e, bad) ↦ absurd (ground arith)
      | inl (rows, good) ↦
          let w' = (item_rows t o (it ∷ its) env w).1 in
          let stamped = stamp (env.clock w'.tick) rows in
          elim (Option-cases (insert_items stamped w'.db)) [
            | inl refused ↦ absurd (ground arith)
            | inr (db', done) ↦ (
              stamped,
              stamp-AreRowsOf t o (env.clock w'.tick) (it ∷ its) rows
                  (item_rows-ok t o (it ∷ its) env w good),
              ground (
                arith,
                insert_items-rows stamped w'.db {db' = db'},
                item_rows-db t o (it ∷ its) env w,
              ),
            )
          ]
    ]

insert_at-rows :
    (new : Order) (env : Env) (w : World)
    → (insert_at new env w).1.db.order_items ≡ w.db.order_items
unfolding insert_order
insert_at-rows new env w = ground arith

-- CreateWithItems adds one row for each item, under the order that it returns.
pub create_with_items-rows :
    (order : Order) (items : List OrderItem) (env : Env) (w : World) {o : Order}
    → (OrderRepo.create_with_items order items env w).0 ≡ ok o
    → HasRows order.tenant_id o.id items w.db (OrderRepo.create_with_items order items env w).1.db
unfolding OrderRepo.create_with_items
create_with_items-rows order items env w {o} h =
    let (id, _, h1, q1) = bind-ok (with_id order.id) (after_id order items) env w h in
    let w1 = (with_id order.id env w).1 in
    let new = record order { id = id } in
    let (_, e-ok, h2, q2) = bind-ok (insert_at new) (λ _. after_insert new items) env w1 h1 in
    let w2 = (insert_at new env w1).1 in
    let (_, i-ok, h3, q3) =
      bind-ok (insert_all_items order.tenant_id id items) (λ _. pure new) env w2 h2 in
    let same_id : id ≡ o.id = ground arith in
    let (rows, are, added) = insert_all_items-ok order.tenant_id id items env w2 i-ok in
    (
      rows,
      subst (λ i. AreRowsOf order.tenant_id i items rows) same_id are,
      ap (λ w. w.db.order_items) (q1 ∙ q2 ∙ q3)
          ∙ added
          ∙ ap (λ l. l ++ rows)
              (insert_at-rows new env w1
                ∙ ap (λ (db : Db). db.order_items) (with_id_db order.id env w)),
    )
