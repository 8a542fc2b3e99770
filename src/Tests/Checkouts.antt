-- ===== src/Tests/Checkouts.antt =====
-- Orders for the held unit, under a new key and under the key of the stored order.
use ticketing_backend.Prelude.{◌≡◌, refl, some, [], ◌∷◌}
use ticketing_backend.Domain.{Error, ok, err, Order, OrderStatus}
use ticketing_backend.Domain.Amounts.{add}
use ticketing_backend.Sql.{count_where, select_first, select_where}
use ticketing_backend.Store.Action.{World, with_tx}
use ticketing_backend.Store.OrderRepo
use ticketing_backend.Store.InventoryRepo
use ticketing_backend.Store.EventRepo
use ticketing_backend.Store.Inventory
use ticketing_backend.Ordering.Create.{HeldItem, add_item, create_order, order_tx}
use ticketing_backend.Ordering.Checkout.{IsStored, create_order_stores, create_order_rolls_back}
use ticketing_backend.Tests.Data.{price, no_fee, tables, swept_tables, world_of, calm_env}

abbrev cart : HeldItem
cart = record { inventory_id = 8; hold_token = 50 }

-- The ticks before the order's identifier: the lookup, BEGIN, the unit, the clock, the
-- categories and the item's identifier.
abbrev placed : Order
placed = record {
  id = 206;
  tenant_id = 1;
  user_id = 20;
  status = OrderStatus.pending;
  idempotency_key = "second";
  subtotal = price;
  fees = no_fee;
  total = price;
  expires_at = some 1000;
  created_at = 0;
}

is_placed : (create_order 1 20 "second" (cart ∷ []) calm_env (world_of tables)).0 ≡ ok placed
unfolding create_order OrderRepo.get_by_idempotency_key select_first with_tx order_tx add_item
    InventoryRepo.get_by_id Inventory.get_by_id EventRepo.list_ticket_categories select_where add
    OrderRepo.create_with_items count_where
is_placed = refl

create_order_stores_example :
    IsStored 1 "second" placed
      (create_order 1 20 "second" (cart ∷ []) calm_env (world_of tables)).1.db
unfolding select_first
create_order_stores_example =
    create_order_stores 1 20 "second" (cart ∷ []) calm_env (world_of tables) {o = placed} refl
      is_placed

-- The world that the first request leaves, some time later.
abbrev later : World
later = record (create_order 1 20 "second" (cart ∷ []) calm_env (world_of tables)).1 { tick = 90 }

refused :
    (create_order 1 20 "second" (cart ∷ []) calm_env (world_of swept_tables)).0
    ≡ err Error.not_found
unfolding create_order OrderRepo.get_by_idempotency_key select_first with_tx order_tx add_item
    InventoryRepo.get_by_id Inventory.get_by_id
refused = refl

create_order_rolls_back_example :
    (create_order 1 20 "second" (cart ∷ []) calm_env (world_of swept_tables)).1.db ≡ swept_tables
create_order_rolls_back_example =
    create_order_rolls_back 1 20 "second" (cart ∷ []) calm_env (world_of swept_tables)
      {e = Error.not_found} refused
