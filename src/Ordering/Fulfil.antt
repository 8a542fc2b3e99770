-- ===== src/Ordering/Fulfil.antt =====
-- The transaction of ConfirmPayment: what it has done to the tables when it succeeds.
use ticketing_backend.Prelude.{
  ℕ, suc, ◌≡◌, refl, ◌∙◌, Bool, true, false, ◌&&◌, some, List, [], ◌∷◌, arith, ◌==◌, if◌then◌else◌,
  Bool-cases, Option-cases, inl, inr, All,
}
use ticketing_backend.Domain.{Error, ok, err, OrderItem, InventoryStatus, EventSeatInventory}
use ticketing_backend.Store.Action.{World, Env}
use ticketing_backend.Store.Inventory.{Table, get_by_id, holds, set_free}
use ticketing_backend.Store.InventoryRepo
use ticketing_backend.SeatInventory.Keys.{IsKeyed}
use ticketing_backend.SeatInventory.Calls.{
  UnitCall, unit_step, unit_step-IsKeyed, unit_step_same, unit_step_result, unit_step_others,
}
use ticketing_backend.Ordering.Confirm.{confirm_items}

abbrev pub sale : ℕ → OrderItem → Table → Bool × Table
sale t it = unit_step t it.event_seat_inventory_id (UnitCall.confirm_sale it.hold_token)

-- The table after the sales of a list of items.
abbrev pub sell : ℕ → List OrderItem → Table → Table
sell t [] rows = rows
sell t (it ∷ its) rows = sell t its (sale t it rows).1

-- Each sale in turn reported success.
abbrev pub Sells : ℕ → List OrderItem → Table → Type 0
Sells t [] rows = Unit
Sells t (it ∷ its) rows = ((sale t it rows).0 ≡ true) × Sells t its (sale t it rows).1

-- The world after the statement of one sale.
abbrev pub after_sale : ℕ → OrderItem → World → World
after_sale t it w = record w {
  db = record (w.db) { inventory = (sale t it w.db.inventory).1 };
  tick = suc w.tick;
}

-- The loop succeeds only if every sale did, and has then changed the inventory by them alone.
pub confirm_items-ok :
    (t : ℕ) (its : List OrderItem) (env : Env) (w : World)
    → (confirm_items t its env w).0 ≡ ok tt
    → Sells t its w.db.inventory
      × ((confirm_items t its env w).1.db ≡ record (w.db) { inventory = sell t its w.db.inventory })
unfolding confirm_items InventoryRepo.confirm_sale unit_step
confirm_items-ok t [] env w h = (tt, refl)
confirm_items-ok t (it ∷ its) env w h =
    ground (arith, confirm_items-ok t its env (after_sale t it w))

pub confirm_items-frame :
    (t : ℕ) (its : List OrderItem) (env : Env) (w : World)
    → (confirm_items t its env w).1.gateway_calls ≡ w.gateway_calls
unfolding confirm_items InventoryRepo.confirm_sale unit_step
confirm_items-frame t [] env w = refl
confirm_items-frame t (it ∷ its) env w =
    ground (arith, confirm_items-frame t its env (after_sale t it w))

-- The unit behind an item is sold.
abbrev pub IsSold : ℕ → Table → OrderItem → Type 0
IsSold t rows it =
    (unit : EventSeatInventory) × (get_by_id t it.event_seat_inventory_id rows ≡ some unit)
    × (unit.status ≡ InventoryStatus.sold)

module _ (t : ℕ) (it : OrderItem) (rows : Table) where
  abbrev seat : ℕ
  seat = it.event_seat_inventory_id

  abbrev confirms : UnitCall
  confirms = UnitCall.confirm_sale it.hold_token

  sale-IsSold : IsKeyed rows → (sale t it rows).0 ≡ true → IsSold t (sale t it rows).1 it
  sale-IsSold keyed reported = elim (Option-cases (get_by_id t seat rows)) [
    | inl absent ↦ absurd (ground (arith, unit_step_result t seat confirms rows keyed))
    | inr (unit, found) ↦
        let passed : holds it.hold_token unit ≡ true =
          ground (arith, unit_step_result t seat confirms rows keyed) in
        (
          set_free InventoryStatus.sold unit,
          rw (unit_step_same t seat confirms rows, found, passed),
          refl,
        )
  ]

  -- A sold unit stays sold under the sale of any item.
  sale_keeps_IsSold : (other : OrderItem) → IsSold t rows other → IsSold t (sale t it rows).1 other
  sale_keeps_IsSold other (unit, found, status) =
      elim (Bool-cases (other.event_seat_inventory_id == seat)) [
        | inl same ↦
            let key : seat ≡ other.event_seat_inventory_id = ground arith in
            let refused : holds it.hold_token unit ≡ false = rw status in
            (
              unit,
              rw (← key) (rw (unit_step_same t seat confirms rows, key, found, refused)),
              status,
            )
        | inr apart ↦ (
          unit,
          unit_step_others t seat t other.event_seat_inventory_id confirms rows
                (inl (λ e. ground arith))
              ∙ found,
          status,
        )
      ]

sell_keeps_IsSold :
    (t : ℕ) (its : List OrderItem) (rows : Table) (other : OrderItem)
    → IsSold t rows other
    → IsSold t (sell t its rows) other
sell_keeps_IsSold t [] rows other sold = sold
sell_keeps_IsSold t (it ∷ its) rows other sold =
    sell_keeps_IsSold t its (sale t it rows).1 other (sale_keeps_IsSold t it rows other sold)

-- Once every sale has reported success, every item's unit is sold.
pub Sells-IsSold :
    (t : ℕ) (its : List OrderItem) (rows : Table)
    → IsKeyed rows
    → Sells t its rows
    → All (IsSold t (sell t its rows)) its
Sells-IsSold t [] rows keyed sells = tt
Sells-IsSold t (it ∷ its) rows keyed sells = (
  sell_keeps_IsSold t its (sale t it rows).1 it (sale-IsSold t it rows keyed sells.0),
  Sells-IsSold t its (sale t it rows).1
      (unit_step-IsKeyed t it.event_seat_inventory_id (UnitCall.confirm_sale it.hold_token) rows
        keyed)
      sells.1,
)

-- Does every sale of the list report success?
abbrev pub sellable : ℕ → List OrderItem → Table → Bool
sellable t [] rows = true
sellable t (it ∷ its) rows = (sale t it rows).0 && sellable t its (sale t it rows).1

pub Sells-sellable :
    (t : ℕ) (its : List OrderItem) (rows : Table) → Sells t its rows → sellable t its rows ≡ true
Sells-sellable t [] rows sells = refl
Sells-sellable t (it ∷ its) rows sells =
    ground (arith, Sells-sellable t its (sale t it rows).1 sells.1)

-- Where no statement fails, the loop ends in success or in ErrExpired, by whether all can be sold.
pub confirm_items_total :
    (t : ℕ) (its : List OrderItem) (env : Env) (w : World)
    → ((n : ℕ) → env.fails n ≡ false)
    → (confirm_items t its env w).0
      ≡ (if sellable t its w.db.inventory then ok tt else err Error.expired)
unfolding confirm_items InventoryRepo.confirm_sale unit_step
confirm_items_total t [] env w calm = refl
confirm_items_total t (it ∷ its) env w calm =
    ground (arith, calm w.tick, confirm_items_total t its env (after_sale t it w) calm)
