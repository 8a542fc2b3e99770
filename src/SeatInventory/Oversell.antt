-- ===== src/SeatInventory/Oversell.antt =====
-- How often a unit is sold, and who can change a held one, under every history of statements.
use ticketing_backend.Prelude.{
  ℕ, ◌+◌, ◌≤◌, ◌≡◌, refl, ◌∙◌, subst, Bool, true, false, ◌&&◌, Option, none, some, List, [], ◌∷◌,
  arith, ◌==◌, Bool-cases, Option-cases, inl, inr, All,
}
use ticketing_backend.Domain.{InventoryStatus, EventSeatInventory}
use ticketing_backend.Sql.Laws.{updated, selected}
use ticketing_backend.Store.Inventory.{Table, holds, get_by_id, insert_batch}
use ticketing_backend.SeatInventory.Keys.{IsKeyed, insert_batch_keeps}
use ticketing_backend.SeatInventory.Calls.{
  UnitCall, Call, on, insert, step, run, unit_guard, unit_change, step-IsKeyed, unit_step_same,
  unit_step_result, unit_step_others,
}

-- A fact about the unit holds of the key of a call that names it.
pub at_same : (P : ℕ → ℕ → Type 0) (t i t' i' : ℕ) → (i' == i && t' == t) ≡ true → P t i → P t' i'
at_same P t i t' i' e p =
    let same_id : i ≡ i' = ground arith in
    let same_tenant : t ≡ t' = ground arith in
    subst (λ n. P n i') same_tenant (subst (λ n. P t n) same_id p)

-- Does the call confirm the sale of this unit?
abbrev pub is_sale : ℕ → ℕ → Call → Bool
is_sale t i (on t' i' (UnitCall.confirm_sale k)) = i' == i && t' == t
is_sale t i (on t' i' (UnitCall.hold k u x)) = false
is_sale t i (on t' i' (UnitCall.release k)) = false
is_sale t i (on t' i' UnitCall.void) = false
is_sale t i (insert news) = false

abbrev sale_count : Bool → Bool → ℕ
sale_count true true = 1
sale_count _ _ = 0

-- How many calls of a history report that they sold this unit.
unfoldable pub sales : ℕ → ℕ → List Call → Table → ℕ
sales t i [] rows = 0
sales t i (c ∷ cs) rows = sale_count (is_sale t i c) (step c rows).0 + sales t i cs (step c rows).1

-- How often the unit can still be sold.
abbrev left_to_sell : InventoryStatus → ℕ
left_to_sell InventoryStatus.available = 1
left_to_sell InventoryStatus.held = 1
left_to_sell InventoryStatus.sold = 0
left_to_sell InventoryStatus.void = 0

abbrev pub budget : Option EventSeatInventory → ℕ
budget none = 1
budget (some row) = left_to_sell row.status

budget-le-one : (o : Option EventSeatInventory) → budget o ≤ 1
budget-le-one none = omega arith
budget-le-one (some row) = ground arith

unit_budget :
    (c : UnitCall) (o : Option EventSeatInventory)
    → sale_count (is_sale 0 0 (on 0 0 c)) (selected (unit_guard c) o == 1)
        + budget (updated (unit_guard c) (unit_change c) o)
      ≤ budget o
unit_budget (UnitCall.hold k u x) none = omega arith
unit_budget (UnitCall.hold k u x) (some row) = ground arith
unit_budget (UnitCall.release k) none = omega arith
unit_budget (UnitCall.release k) (some row) = ground arith
unit_budget (UnitCall.confirm_sale k) none = omega arith
unit_budget (UnitCall.confirm_sale k) (some row) = ground arith
unit_budget UnitCall.void none = omega arith
unit_budget UnitCall.void (some row) = ground arith

is_sale_other :
    (t i t' i' : ℕ) (c : UnitCall) → (i' == i && t' == t) ≡ false → is_sale t i (on t' i' c) ≡ false
is_sale_other t i t' i' (UnitCall.hold k u x) e = refl
is_sale_other t i t' i' (UnitCall.release k) e = refl
is_sale_other t i t' i' (UnitCall.confirm_sale k) e = e
is_sale_other t i t' i' UnitCall.void e = refl

is_sale_same : (t i : ℕ) (c : UnitCall) → is_sale t i (on t i c) ≡ is_sale 0 0 (on 0 0 c)
is_sale_same t i (UnitCall.hold k u x) = refl
is_sale_same t i (UnitCall.release k) = refl
is_sale_same t i (UnitCall.confirm_sale k) = ground arith
is_sale_same t i UnitCall.void = refl

abbrev Budgeted : ℕ → ℕ → Call → Table → Type 0
Budgeted t i c rows =
    sale_count (is_sale t i c) (step c rows).0 + budget (get_by_id t i (step c rows).1)
    ≤ budget (get_by_id t i rows)

on_budget_same :
    (t i : ℕ) (c : UnitCall) (rows : Table) → IsKeyed rows → Budgeted t i (on t i c) rows
unfolding step
on_budget_same t i c rows keyed =
    rw (is_sale_same t i c, unit_step_same t i c rows, unit_step_result t i c rows keyed)
      (unit_budget c (get_by_id t i rows))

on_budget :
    (t i t' i' : ℕ) (c : UnitCall) (rows : Table) → IsKeyed rows → Budgeted t i (on t' i' c) rows
unfolding step
on_budget t i t' i' c rows keyed = elim (Bool-cases (i' == i && t' == t)) [
  | inl e ↦
      at_same (λ t' i'. Budgeted t i (on t' i' c) rows) t i t' i' e
        (on_budget_same t i c rows keyed)
  | inr e ↦
      rw (is_sale_other t i t' i' c e, unit_step_others t' i' t i c rows (ground arith))
        (omega arith)
]

step_budget : (t i : ℕ) (c : Call) (rows : Table) → IsKeyed rows → Budgeted t i c rows
unfolding step
step_budget t i (on t' i' c) rows keyed = on_budget t i t' i' c rows keyed
step_budget t i (insert news) rows keyed = elim (Option-cases (insert_batch news rows)) [
  | inl refused ↦ rw refused (omega arith)
  | inr (rows', taken) ↦ rw taken (elim (Option-cases (get_by_id t i rows)) [
    | inl absent ↦ rw absent (omega (arith, budget-le-one (get_by_id t i rows')))
    | inr (unit, found) ↦ rw (found, insert_batch_keeps news t i rows taken found) (omega arith)
  ])
]

sales-budget :
    (t i : ℕ) (cs : List Call) (rows : Table)
    → IsKeyed rows
    → sales t i cs rows + budget (get_by_id t i (run cs rows)) ≤ budget (get_by_id t i rows)
unfolding sales run
sales-budget t i [] rows keyed = omega arith
sales-budget t i (c ∷ cs) rows keyed = omega (
  arith,
  step_budget t i c rows keyed,
  sales-budget t i cs (step c rows).1 (step-IsKeyed c rows keyed),
)

-- In every history of statements on a table whose identifiers are distinct, at most one
-- ConfirmSale of a given unit reports success, and none does if the unit was sold or void before.
pub sales-le-one :
    (t i : ℕ) (cs : List Call) (rows : Table)
    → IsKeyed rows
    → (sales t i cs rows ≤ 1) × (sales t i cs rows ≤ budget (get_by_id t i rows))
sales-le-one t i cs rows keyed =
    omega (arith, sales-budget t i cs rows keyed, budget-le-one (get_by_id t i rows))

-- A call that can end a hold under this token: it names the unit, and carries the token or voids.
abbrev pub ends_hold : ℕ → ℕ → ℕ → Call → Bool
ends_hold t i k (on t' i' (UnitCall.hold k' u x)) = false
ends_hold t i k (on t' i' (UnitCall.release k')) = i' == i && t' == t && k' == k
ends_hold t i k (on t' i' (UnitCall.confirm_sale k')) = i' == i && t' == t && k' == k
ends_hold t i k (on t' i' UnitCall.void) = i' == i && t' == t
ends_hold t i k (insert news) = false

abbrev pub names : ℕ → ℕ → Call → Bool
names t i (on t' i' c) = i' == i && t' == t
names t i (insert news) = false

-- How many calls of a history name this unit and report success.
unfoldable pub successes : ℕ → ℕ → List Call → Table → ℕ
successes t i [] rows = 0
successes t i (c ∷ cs) rows =
    sale_count (names t i c) (step c rows).0 + successes t i cs (step c rows).1

unit_guard_blocked :
    (t i k : ℕ) (c : UnitCall) (unit : EventSeatInventory)
    → holds k unit ≡ true
    → ends_hold t i k (on t i c) ≡ false
    → unit_guard c unit ≡ false
unit_guard_blocked t i k (UnitCall.hold k' u x) unit held e = ground arith
unit_guard_blocked t i k (UnitCall.release k') unit held e = ground arith
unit_guard_blocked t i k (UnitCall.confirm_sale k') unit held e = ground arith
unit_guard_blocked t i k UnitCall.void unit held e = ground arith

module _ (t i k : ℕ) (unit : EventSeatInventory) (held : holds k unit ≡ true) where
  abbrev Blocked : Call → Table → Type 0
  Blocked c rows =
      (get_by_id t i (step c rows).1 ≡ some unit) × (sale_count (names t i c) (step c rows).0 ≡ 0)

  on_same-Blocked :
      (c : UnitCall) (rows : Table)
      → IsKeyed rows
      → get_by_id t i rows ≡ some unit
      → ends_hold t i k (on t i c) ≡ false
      → Blocked (on t i c) rows
  unfolding step
  on_same-Blocked c rows keyed found e =
      let shut = unit_guard_blocked t i k c unit held e in
      (
        rw (unit_step_same t i c rows, found, shut),
        rw (unit_step_result t i c rows keyed, found, shut) (ground arith),
      )

  step-Blocked :
      (c : Call) (rows : Table)
      → IsKeyed rows
      → get_by_id t i rows ≡ some unit
      → ends_hold t i k c ≡ false
      → Blocked c rows
  unfolding step
  step-Blocked (on t' i' c) rows keyed found e = elim (Bool-cases (i' == i && t' == t)) [
    | inl same ↦
        at_same (λ t' i'. ends_hold t i k (on t' i' c) ≡ false → Blocked (on t' i' c) rows) t i t'
          i' same (on_same-Blocked c rows keyed found) e
    | inr other ↦ (unit_step_others t' i' t i c rows (ground arith) ∙ found, rw other)
  ]
  step-Blocked (insert news) rows keyed found e = elim (Option-cases (insert_batch news rows)) [
    | inl refused ↦ rw refused (found, refl)
    | inr (rows', taken) ↦ rw taken (insert_batch_keeps news t i rows taken found, refl)
  ]

  -- While a unit is held under a token, and no call releases or confirms it with that token or
  -- voids it, the unit stays exactly as it is, and no call that names it reports success: other
  -- fans cannot hold, release or buy it.
  pub hold_exclusive :
      (cs : List Call) (rows : Table)
      → IsKeyed rows
      → get_by_id t i rows ≡ some unit
      → All (λ c. ends_hold t i k c ≡ false) cs
      → (get_by_id t i (run cs rows) ≡ some unit) × (successes t i cs rows ≡ 0)
  unfolding run successes
  hold_exclusive [] rows keyed found quiet = (found, refl)
  hold_exclusive (c ∷ cs) rows keyed found quiet =
      let now = step-Blocked c rows keyed found quiet.0 in
      let later = hold_exclusive cs (step c rows).1 (step-IsKeyed c rows keyed) now.0 quiet.1 in
      (later.0, omega (arith, now.1, later.1))
