-- ===== src/Holding/Reclaim.antt =====
-- Which units the sweep can change.
use ticketing_backend.Prelude.{
  ℕ, ◌+◌, ◌≡◌, refl, ◌∙◌, ap, arith, inl, inr, Bool, true, false, ◌&&◌, Option, some, List, [], ◌∷◌,
  ◌==◌, All, All-take, Bool-cases, Option-cases,
}
use ticketing_backend.Domain.{EventSeatInventory}
use ticketing_backend.Sql.{count_where, select_where, order_by}
use ticketing_backend.Sql.Laws.{count-guarded, selected, order_by-All}
use ticketing_backend.Store.Inventory
use ticketing_backend.Store.Inventory.{
  Table, is_unit, is_expired_hold, expiry, get_by_id, list_expired_holds,
}
use ticketing_backend.Store.InventoryRepo
use ticketing_backend.Store.Action.{next, World, Env, Result-cases}
use ticketing_backend.SeatInventory.Keys.{IsKeyed, count-is_unit-le}
use ticketing_backend.SeatInventory.Calls.{UnitCall, unit_step, unit_step_others}
use ticketing_backend.Holding.Sweep.{release_row, release_rows, sweep_expired_holds}

-- No row of the list is the unit.
abbrev Spares : ℕ → ℕ → List EventSeatInventory → Type 0
Spares t i rows = All (λ row. is_unit t i row ≡ false) rows

select_where-Spares :
    (t i : ℕ) (p : EventSeatInventory → Bool) (rows : Table)
    → count_where (λ row. is_unit t i row && p row) rows ≡ 0
    → Spares t i (select_where p rows)
unfolding select_where count_where
select_where-Spares t i p [] h = tt
select_where-Spares t i p (row ∷ rows) h = elim (Bool-cases (p row)) [
  | inl e ↦ rw e (ground arith, select_where-Spares t i p rows (ground arith))
  | inr e ↦ rw e (select_where-Spares t i p rows (ground arith))
]

listed-Spares :
    (t i before limit : ℕ) (rows : Table) {unit : EventSeatInventory}
    → IsKeyed rows
    → get_by_id t i rows ≡ some unit
    → is_expired_hold before unit ≡ false
    → Spares t i (list_expired_holds before limit rows)
unfolding list_expired_holds get_by_id
listed-Spares t i before limit rows {unit} keyed found alive =
    let p = is_expired_hold before in
    let none_selected : count_where (λ row. is_unit t i row && p row) rows ≡ 0 =
      count-guarded (is_unit t i) p rows (count-is_unit-le t i rows keyed)
      ∙ ap (selected p) found
      ∙ ground arith in
    All-take _ limit (order_by expiry (select_where p rows))
      (order_by-All _ expiry (select_where p rows) (select_where-Spares t i p rows none_selected))

pub release_other :
    (t i : ℕ) (row : EventSeatInventory) (k : ℕ) (rows : Table)
    → is_unit t i row ≡ false
    → get_by_id t i (Inventory.release row.tenant_id row.id k rows).1 ≡ get_by_id t i rows
unfolding unit_step
release_other t i row k rows h = elim (Bool-cases (row.id == i)) [
  | inl same ↦
      unit_step_others row.tenant_id row.id t i (UnitCall.release k) rows (inr (λ e. ground arith))
  | inr apart ↦
      unit_step_others row.tenant_id row.id t i (UnitCall.release k) rows (inl (λ e. ground arith))
]

abbrev unit_of : ℕ → ℕ → World → Option EventSeatInventory
unit_of t i w = get_by_id t i w.db.inventory

release_row_other :
    (t i : ℕ) (row : EventSeatInventory) (env : Env) (w : World)
    → is_unit t i row ≡ false
    → unit_of t i (release_row row env w).1 ≡ unit_of t i w
unfolding release_row InventoryRepo.release
release_row_other t i row env w h = elim (Option-cases row.hold_token) [
  | inl free ↦ ground arith
  | inr (k, held) ↦ ground (arith, release_other t i row k w.db.inventory h)
]

release_rows_other :
    (t i n : ℕ) (rows : List EventSeatInventory) (env : Env) (w : World)
    → Spares t i rows
    → unit_of t i (release_rows n rows env w).1 ≡ unit_of t i w
unfolding release_rows
release_rows_other t i n [] env w h = refl
release_rows_other t i n (row ∷ rows) env w h =
    let first = release_row_other t i row env w h.0 in
    let w' = (release_row row env w).1 in
    elim (Result-cases (release_row row env w).0) [
      | inl (true, done) ↦ ground (arith, first, release_rows_other t i (n + 1) rows env w' h.1)
      | inl (false, done) ↦ ground (arith, first, release_rows_other t i n rows env w' h.1)
      | inr (e, failed) ↦ ground (arith, first)
    ]

-- On a table with unique identifiers, the sweep leaves every unit as it is that is not a hold
-- whose expiry has passed when the sweep starts: sold, void and available units, and the holds
-- that still run, whatever statements fail on the way.
pub sweep_keeps :
    (t i batch_size : ℕ) (env : Env) (w : World) {unit : EventSeatInventory}
    → IsKeyed w.db.inventory
    → get_by_id t i w.db.inventory ≡ some unit
    → is_expired_hold (env.clock w.tick) unit ≡ false
    → get_by_id t i (sweep_expired_holds batch_size env w).1.db.inventory ≡ some unit
unfolding sweep_expired_holds InventoryRepo.list_expired_holds
sweep_keeps t i batch_size env w {unit} keyed found alive =
    let listed = list_expired_holds (env.clock w.tick) batch_size w.db.inventory in
    let spared = listed-Spares t i (env.clock w.tick) batch_size w.db.inventory keyed found alive in
    elim (Bool-cases (env.fails (next w).tick)) [
      | inl down ↦ ground arith
      | inr calm ↦ ground (arith, found, release_rows_other t i 0 listed env (next (next w)) spared)
    ]
