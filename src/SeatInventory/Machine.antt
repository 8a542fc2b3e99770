-- ===== src/SeatInventory/Machine.antt =====
-- The life of one unit as an abstract compare-and-swap machine, the CHECK constraint of
-- migrations/000006_inventory.up.sql, and how the statements relate to the machine.
use ticketing_backend.Prelude.{
  ℕ, ◌≡◌, refl, Bool, true, false, none, some, List, [], ◌∷◌, arith, ◌==◌, if◌then◌else◌,
  Option-cases, Bool-cases, inl, inr, All, All-append, subst,
}
use ticketing_backend.Domain.{InventoryStatus, EventSeatInventory}
use ticketing_backend.Sql.Laws.{update-All}
use ticketing_backend.Store.Inventory
use ticketing_backend.Store.Inventory.{
  Table, holds, set_held, set_free, get_by_id, insert_batch, insert_unit,
}
use ticketing_backend.SeatInventory.Keys.{IsKeyed, insert_unit_cases}
use ticketing_backend.SeatInventory.Calls.{
  UnitCall, Call, on, insert, unit_step, step, run, unit_guard, unit_change, unit_step_same,
  unit_step_result,
}

-- A held unit has its token and its expiry.
pub data UnitState : Type 0 where
  available : UnitState
  held : ℕ → ℕ → UnitState
  sold : UnitState
  void : UnitState

-- What a statement does to a unit in each state, and whether it reports success.
unfoldable pub transition : UnitCall → UnitState → Bool × UnitState
transition (UnitCall.hold k u x) UnitState.available = (true, UnitState.held k x)
transition (UnitCall.hold k u x) s = (false, s)
transition (UnitCall.release k) (UnitState.held k' x) =
    if k' == k then (true, UnitState.available) else (false, UnitState.held k' x)
transition (UnitCall.release k) s = (false, s)
transition (UnitCall.confirm_sale k) (UnitState.held k' x) =
    if k' == k then (true, UnitState.sold) else (false, UnitState.held k' x)
transition (UnitCall.confirm_sale k) s = (false, s)
transition UnitCall.void s = (true, UnitState.void)

abbrev HasNoHold : InventoryStatus → EventSeatInventory → Type 0
HasNoHold status row =
    (row.status ≡ status)
    × (row.hold_token ≡ none)
    × (row.hold_expires_at ≡ none)
    × (row.held_by_user_id ≡ none)

abbrev pub Represents : UnitState → EventSeatInventory → Type 0
Represents UnitState.available row = HasNoHold InventoryStatus.available row
Represents (UnitState.held k x) row =
    (row.status ≡ InventoryStatus.held) × (row.hold_token ≡ some k) × (row.hold_expires_at ≡ some x)
Represents UnitState.sold row = HasNoHold InventoryStatus.sold row
Represents UnitState.void row = HasNoHold InventoryStatus.void row

-- The CHECK constraint: the row stands for a state of the machine.
abbrev pub IsConsistent : EventSeatInventory → Type 0
IsConsistent row = (s : UnitState) × Represents s row

holds_token :
    (k k' x : ℕ) (row : EventSeatInventory)
    → Represents (UnitState.held k' x) row
    → holds k row ≡ (k' == k)
holds_token k k' x row h = rw (h.0, h.1)

row_refines :
    (c : UnitCall) (s : UnitState) (row : EventSeatInventory)
    → Represents s row
    → (unit_guard c row ≡ (transition c s).0)
      × Represents (transition c s).1 (if unit_guard c row then unit_change c row else row)
unfolding transition
row_refines (UnitCall.hold k u x) UnitState.available row h = ground arith
row_refines (UnitCall.hold k u x) (UnitState.held k' x') row h = ground arith
row_refines (UnitCall.hold k u x) UnitState.sold row h = ground arith
row_refines (UnitCall.hold k u x) UnitState.void row h = ground arith
row_refines (UnitCall.release k) UnitState.available row h = ground arith
row_refines (UnitCall.release k) (UnitState.held k' x') row h = elim (Bool-cases (k' == k)) [
  | inl same ↦ rw (holds_token k k' x' row h, same) (refl, (refl, refl, refl, refl))
  | inr other ↦ rw (holds_token k k' x' row h, other) (refl, h)
]
row_refines (UnitCall.release k) UnitState.sold row h = ground arith
row_refines (UnitCall.release k) UnitState.void row h = ground arith
row_refines (UnitCall.confirm_sale k) UnitState.available row h = ground arith
row_refines (UnitCall.confirm_sale k) (UnitState.held k' x') row h = elim (Bool-cases (k' == k)) [
  | inl same ↦ rw (holds_token k k' x' row h, same) (refl, (refl, refl, refl, refl))
  | inr other ↦ rw (holds_token k k' x' row h, other) (refl, h)
]
row_refines (UnitCall.confirm_sale k) UnitState.sold row h = ground arith
row_refines (UnitCall.confirm_sale k) UnitState.void row h = ground arith
row_refines UnitCall.void s row h = (refl, (refl, refl, refl, refl))

-- A statement on a unit that stands for a state of the machine reports what the machine reports,
-- and leaves a unit that stands for the machine's next state.
pub unit_step_refines :
    (t i : ℕ) (c : UnitCall) (s : UnitState) (rows : Table) {unit : EventSeatInventory}
    → IsKeyed rows
    → get_by_id t i rows ≡ some unit
    → Represents s unit
    → ((unit_step t i c rows).0 ≡ (transition c s).0)
      × ((unit' : EventSeatInventory) × (get_by_id t i (unit_step t i c rows).1 ≡ some unit')
          × Represents (transition c s).1 unit')
unit_step_refines t i c s rows {unit} keyed found rep =
    let row = row_refines c s unit rep in
    (
      rw (unit_step_result t i c rows keyed, found, row.0) (ground arith),
      (
        (if unit_guard c unit then unit_change c unit else unit),
        rw (unit_step_same t i c rows, found),
        row.1,
      ),
    )

insert_batch-IsConsistent :
    (news : List EventSeatInventory) (rows : Table) {rows' : Table}
    → All IsConsistent rows
    → insert_batch news rows ≡ some rows'
    → All IsConsistent rows'
unfolding insert_batch
insert_batch-IsConsistent [] rows h e = subst (All IsConsistent) (ground arith) h
insert_batch-IsConsistent (new ∷ news) rows h e = elim (Option-cases (insert_unit new rows)) [
  | inl refused ↦ absurd (ground arith)
  | inr (rows1, taken) ↦
      insert_batch-IsConsistent news rows1
        (rw (insert_unit_cases new rows taken).0 (
          All-append IsConsistent rows (set_free InventoryStatus.available new ∷ []) h
            ((UnitState.available, (refl, refl, refl, refl)), tt)))
        (ground arith)
]

-- The CHECK constraint of the table holds after every statement, where it held before.
pub step-IsConsistent :
    (c : Call) (rows : Table) → All IsConsistent rows → All IsConsistent (step c rows).1
unfolding step unit_step Inventory.hold Inventory.release Inventory.confirm_sale Inventory.void
step-IsConsistent (on t i (UnitCall.hold k u x)) rows h =
    update-All IsConsistent _ (set_held k u x) rows
      (λ row _. (UnitState.held k x, (refl, refl, refl))) h
step-IsConsistent (on t i (UnitCall.release k)) rows h =
    update-All IsConsistent _ (set_free InventoryStatus.available) rows
      (λ row _. (UnitState.available, (refl, refl, refl, refl))) h
step-IsConsistent (on t i (UnitCall.confirm_sale k)) rows h =
    update-All IsConsistent _ (set_free InventoryStatus.sold) rows
      (λ row _. (UnitState.sold, (refl, refl, refl, refl))) h
step-IsConsistent (on t i UnitCall.void) rows h =
    update-All IsConsistent _ (set_free InventoryStatus.void) rows
      (λ row _. (UnitState.void, (refl, refl, refl, refl))) h
step-IsConsistent (insert news) rows h = elim (Option-cases (insert_batch news rows)) [
  | inl refused ↦ rw refused h
  | inr (rows', taken) ↦ rw taken (insert_batch-IsConsistent news rows h taken)
]

-- In every history of statements, the CHECK constraint of the table holds at the end if it held
-- at the beginning: a unit has a token and an expiry while it is held, and neither otherwise.
pub run-IsConsistent :
    (cs : List Call) (rows : Table) → All IsConsistent rows → All IsConsistent (run cs rows)
unfolding run
run-IsConsistent [] rows h = h
run-IsConsistent (c ∷ cs) rows h = run-IsConsistent cs (step c rows).1 (step-IsConsistent c rows h)
