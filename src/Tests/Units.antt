-- ===== src/Tests/Units.antt =====
-- Histories of statements on the inventory table.
use ticketing_backend.Prelude.{
  ◌++◌, ◌≤◌, ◌≡◌, refl, arith, inr, some, List, [], ◌∷◌, All, length, min,
}
use ticketing_backend.Domain.{EventSeatInventory}
use ticketing_backend.Sql.{count_where, update_where, select_first}
use ticketing_backend.Store.Inventory
use ticketing_backend.Store.Inventory.{get_by_id, list_expired_holds, is_expired_hold}
use ticketing_backend.SeatInventory.Calls.{
  UnitCall, Call, on, unit_step, step, run, unit_step_others,
}
use ticketing_backend.SeatInventory.Oversell.{
  sales, budget, successes, sales-le-one, hold_exclusive,
}
use ticketing_backend.SeatInventory.Machine.{
  UnitState, transition, Represents, IsConsistent, unit_step_refines, run-IsConsistent,
}
use ticketing_backend.SeatInventory.Expiry.{
  has_expired, ArePartsOf, IsExpired, IsSoonestFirst, list_expired_holds_lem,
}
use ticketing_backend.Tests.Data.{held_unit, units, units-IsKeyed}

-- Two fans take and buy the same unit, the second with the token of the first.
abbrev rush : List Call
rush =
    on 1 7 (UnitCall.hold 60 21 900)
    ∷ on 1 7 (UnitCall.hold 61 22 900)
    ∷ on 1 7 (UnitCall.confirm_sale 60)
    ∷ on 1 7 (UnitCall.confirm_sale 60)
    ∷ []

rush_sells_once : sales 1 7 rush units ≡ 1
unfolding sales count_where step unit_step Inventory.confirm_sale Inventory.hold update_where
rush_sells_once = refl

sales-le-one_example :
    (sales 1 7 rush units ≤ 1) × (sales 1 7 rush units ≤ budget (get_by_id 1 7 units))
sales-le-one_example = sales-le-one 1 7 rush units units-IsKeyed

-- Attempts on the held unit by fans who do not have its token.
abbrev attempts : List Call
attempts =
    on 1 8 (UnitCall.hold 61 22 2000)
    ∷ on 1 8 (UnitCall.release 61)
    ∷ on 1 8 (UnitCall.confirm_sale 61)
    ∷ on 2 8 UnitCall.void
    ∷ on 1 7 (UnitCall.hold 62 22 2000)
    ∷ []

hold_exclusive_example :
    (get_by_id 1 8 (run attempts units) ≡ some held_unit) × (successes 1 8 attempts units ≡ 0)
unfolding get_by_id select_first
hold_exclusive_example =
    hold_exclusive 1 8 50 held_unit refl attempts units units-IsKeyed refl
      (refl, (refl, (refl, (refl, (refl, tt)))))

unit_step_others_example : get_by_id 2 8 (unit_step 1 8 UnitCall.void units).1 ≡ get_by_id 2 8 units
unit_step_others_example = unit_step_others 1 8 2 8 UnitCall.void units (inr (λ e. ground arith))

unit_step_refines_example :
    ((unit_step 1 8 (UnitCall.confirm_sale 50) units).0
      ≡ (transition (UnitCall.confirm_sale 50) (UnitState.held 50 1000)).0)
    × ((unit' : EventSeatInventory) × (get_by_id 1 8
            (unit_step 1 8 (UnitCall.confirm_sale 50) units).1
          ≡ some unit')
        × Represents (transition (UnitCall.confirm_sale 50) (UnitState.held 50 1000)).1 unit')
unfolding get_by_id select_first
unit_step_refines_example =
    unit_step_refines 1 8 (UnitCall.confirm_sale 50) (UnitState.held 50 1000) units
      {unit = held_unit} units-IsKeyed refl (refl, refl, refl)

run-IsConsistent_example : All IsConsistent (run rush units)
run-IsConsistent_example = run-IsConsistent rush units (
  (UnitState.available, (refl, refl, refl, refl)),
  ((UnitState.held 50 1000, (refl, refl, refl)), ((UnitState.sold, (refl, refl, refl, refl)), tt)),
)

list_expired_holds_lem_example :
    (rest : List EventSeatInventory) × ArePartsOf 2000 units (list_expired_holds 2000 5 units) rest
    × All (IsExpired 2000) (list_expired_holds 2000 5 units)
    × IsSoonestFirst (list_expired_holds 2000 5 units ++ rest)
    × (length (list_expired_holds 2000 5 units) ≡ min 5 (count_where (has_expired 2000) units))
list_expired_holds_lem_example = list_expired_holds_lem 2000 5 units
