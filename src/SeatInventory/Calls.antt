-- ===== src/SeatInventory/Calls.antt =====
-- Statements on event_seat_inventory as data, and a history of them: the order in which Postgres
-- ran the statements of all sessions. Each is atomic, so any interleaving is such a list.
use ticketing_backend.Prelude.{
  ℕ, ◌≡◌, refl, ◌⊎◌, ◌≢◌, Bool, true, false, Option, none, some, List, [], ◌∷◌, arith, ◌==◌,
  Option-cases, inl, inr,
}
use ticketing_backend.Domain.{InventoryStatus, is_available, EventSeatInventory}
use ticketing_backend.Sql.Laws.{updated, selected, select-update_key, count-key}
use ticketing_backend.Store.Inventory
use ticketing_backend.Store.Inventory.{
  Table, is_unit, holds, set_held, set_free, get_by_id, insert_batch,
}
use ticketing_backend.SeatInventory.Keys.{
  IsKeyed, count-is_unit-le, update-IsKeyed, guarded_result, guarded_same, update_others,
  insert_batch-IsKeyed,
}

-- A statement on one unit: the arguments are the hold token, the user and the expiry.
pub data UnitCall : Type 0 where
  hold : ℕ → ℕ → ℕ → UnitCall
  release : ℕ → UnitCall
  confirm_sale : ℕ → UnitCall
  void : UnitCall

-- The first two arguments of `on` are the tenant and the unit's identifier.
pub data Call : Type 0 where
  on : ℕ → ℕ → UnitCall → Call
  insert : List EventSeatInventory → Call

unfoldable pub unit_step : ℕ → ℕ → UnitCall → Table → Bool × Table
unit_step t i (UnitCall.hold k u x) = Inventory.hold t i k u x
unit_step t i (UnitCall.release k) = Inventory.release t i k
unit_step t i (UnitCall.confirm_sale k) = Inventory.confirm_sale t i k
unit_step t i UnitCall.void = Inventory.void t i

abbrev pub inserted : Table → Option Table → Bool × Table
inserted rows none = (false, rows)
inserted rows (some rows') = (true, rows')

unfoldable pub step : Call → Table → Bool × Table
step (on t i c) rows = unit_step t i c rows
step (insert news) rows = inserted rows (insert_batch news rows)

unfoldable pub run : List Call → Table → Table
unfolding step
run [] rows = rows
run (c ∷ cs) rows = run cs (step c rows).1

-- The guard of each statement, and what it does to a unit that passes.
abbrev pub unit_guard : UnitCall → EventSeatInventory → Bool
unit_guard (UnitCall.hold k u x) row = is_available row.status
unit_guard (UnitCall.release k) row = holds k row
unit_guard (UnitCall.confirm_sale k) row = holds k row
unit_guard UnitCall.void row = true

abbrev pub unit_change : UnitCall → EventSeatInventory → EventSeatInventory
unit_change (UnitCall.hold k u x) = set_held k u x
unit_change (UnitCall.release k) = set_free InventoryStatus.available
unit_change (UnitCall.confirm_sale k) = set_free InventoryStatus.sold
unit_change UnitCall.void = set_free InventoryStatus.void

pub unit_step-IsKeyed :
    (t i : ℕ) (c : UnitCall) (rows : Table) → IsKeyed rows → IsKeyed (unit_step t i c rows).1
unfolding unit_step Inventory.hold Inventory.release Inventory.confirm_sale Inventory.void
unit_step-IsKeyed t i (UnitCall.hold k u x) rows =
    update-IsKeyed _ (set_held k u x) rows (λ row. refl)
unit_step-IsKeyed t i (UnitCall.release k) rows =
    update-IsKeyed _ (set_free InventoryStatus.available) rows (λ row. refl)
unit_step-IsKeyed t i (UnitCall.confirm_sale k) rows =
    update-IsKeyed _ (set_free InventoryStatus.sold) rows (λ row. refl)
unit_step-IsKeyed t i UnitCall.void rows =
    update-IsKeyed _ (set_free InventoryStatus.void) rows (λ row. refl)

pub step-IsKeyed : (c : Call) (rows : Table) → IsKeyed rows → IsKeyed (step c rows).1
unfolding step
step-IsKeyed (on t i c) rows keyed = unit_step-IsKeyed t i c rows keyed
step-IsKeyed (insert news) rows keyed = elim (Option-cases (insert_batch news rows)) [
  | inl refused ↦ rw refused keyed
  | inr (rows', taken) ↦ rw taken (insert_batch-IsKeyed news rows keyed taken)
]

-- In every history of statements, identifiers stay unique if they were.
pub run-IsKeyed : (cs : List Call) (rows : Table) → IsKeyed rows → IsKeyed (run cs rows)
unfolding run
run-IsKeyed [] rows keyed = keyed
run-IsKeyed (c ∷ cs) rows keyed = run-IsKeyed cs (step c rows).1 (step-IsKeyed c rows keyed)

-- A call on a unit changes it by its statement if its guard passes.
pub unit_step_same :
    (t i : ℕ) (c : UnitCall) (rows : Table)
    → get_by_id t i (unit_step t i c rows).1
      ≡ updated (unit_guard c) (unit_change c) (get_by_id t i rows)
unfolding unit_step Inventory.hold Inventory.release Inventory.confirm_sale Inventory.void get_by_id
unit_step_same t i (UnitCall.hold k u x) rows =
    guarded_same t i _ (set_held k u x) rows (λ row. refl)
unit_step_same t i (UnitCall.release k) rows =
    guarded_same t i (holds k) (set_free InventoryStatus.available) rows (λ row. refl)
unit_step_same t i (UnitCall.confirm_sale k) rows =
    guarded_same t i (holds k) (set_free InventoryStatus.sold) rows (λ row. refl)
unit_step_same t i UnitCall.void rows =
    select-update_key (is_unit t i) (set_free InventoryStatus.void) rows (λ row. refl)

-- In a keyed table the call reports exactly whether its guard passed.
pub unit_step_result :
    (t i : ℕ) (c : UnitCall) (rows : Table)
    → IsKeyed rows
    → (unit_step t i c rows).0 ≡ (selected (unit_guard c) (get_by_id t i rows) == 1)
unfolding unit_step Inventory.hold Inventory.release Inventory.confirm_sale Inventory.void get_by_id
unit_step_result t i (UnitCall.hold k u x) rows keyed =
    guarded_result t i _ (set_held k u x) rows keyed
unit_step_result t i (UnitCall.release k) rows keyed =
    guarded_result t i (holds k) (set_free InventoryStatus.available) rows keyed
unit_step_result t i (UnitCall.confirm_sale k) rows keyed =
    guarded_result t i (holds k) (set_free InventoryStatus.sold) rows keyed
unit_step_result t i UnitCall.void rows keyed =
    ground (arith, count-key (is_unit t i) rows, count-is_unit-le t i rows keyed)

-- It leaves every other unit alone, those of other tenants under the same identifier too.
pub unit_step_others :
    (t i t' i' : ℕ) (c : UnitCall) (rows : Table)
    → (i' ≢ i) ⊎ (t' ≢ t)
    → get_by_id t' i' (unit_step t i c rows).1 ≡ get_by_id t' i' rows
unfolding unit_step Inventory.hold Inventory.release Inventory.confirm_sale Inventory.void
unit_step_others t i t' i' (UnitCall.hold k u x) rows apart =
    update_others t i t' i' _ (set_held k u x) rows (λ row p. ground arith) (λ row. refl) apart
unit_step_others t i t' i' (UnitCall.release k) rows apart =
    update_others t i t' i' _ (set_free InventoryStatus.available) rows (λ row p. ground arith)
      (λ row. refl) apart
unit_step_others t i t' i' (UnitCall.confirm_sale k) rows apart =
    update_others t i t' i' _ (set_free InventoryStatus.sold) rows (λ row p. ground arith)
      (λ row. refl) apart
unit_step_others t i t' i' UnitCall.void rows apart =
    update_others t i t' i' _ (set_free InventoryStatus.void) rows (λ row p. p) (λ row. refl) apart
