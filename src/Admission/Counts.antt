-- ===== src/Admission/Counts.antt =====
-- The free units that the worker counts against those of the table: the GROUP BY, the map of its
-- groups and the sum over the map, against a count of the rows.
use ticketing_backend.Prelude.{
  ℕ, ◌+◌, ◌≡◌, ◌≤◌, ◌⊎◌, refl, ==_refl, arith, Bool, ◌&&◌, List, [], ◌∷◌, ◌==◌, if◌then◌else◌,
  Bool-cases, inl, inr,
}
use ticketing_backend.Domain.{EventSeatInventory, InventoryCounts, is_available}
use ticketing_backend.Sql.{count_where, select_where}
use ticketing_backend.Store.Inventory.{
  Table, StatusGroup, available_of, add_to_groups, group_by_status, put_group, put_groups,
  count_by_status,
}
use ticketing_backend.Admission.{total_available}

abbrev is_free_group : ℕ → StatusGroup → Bool
is_free_group k g = is_available g.group_status && g.category_id == k

free_groups : ℕ → List StatusGroup → ℕ
free_groups k gs = count_where (is_free_group k) gs

unfoldable free_sum : List StatusGroup → ℕ
free_sum [] = 0
free_sum (g ∷ gs) = (if is_available g.group_status then g.count else 0) + free_sum gs

add_free_sum :
    (row : EventSeatInventory) (gs : List StatusGroup)
    → free_sum (add_to_groups row gs) ≡ (if is_available row.status then 1 else 0) + free_sum gs
unfolding free_sum add_to_groups
add_free_sum row [] = ground arith
add_free_sum row (g ∷ gs) = ground (arith, add_free_sum row gs)

group_free_sum :
    (rows : Table)
    → free_sum (group_by_status rows) ≡ count_where (λ row. is_available row.status) rows
unfolding free_sum group_by_status count_where
group_free_sum [] = refl
group_free_sum (row ∷ rows) =
    ground (arith, add_free_sum row (group_by_status rows), group_free_sum rows)

add_free_groups :
    (k : ℕ) (row : EventSeatInventory) (gs : List StatusGroup)
    → free_groups k (add_to_groups row gs) ≡ (
        if is_available row.status && row.event_ticket_category_id == k && free_groups k gs == 0
        then 1
        else free_groups k gs)
unfolding free_groups count_where add_to_groups
add_free_groups k row [] = ground arith
add_free_groups k row (g ∷ gs) = ground (arith, add_free_groups k row gs)

-- A category has at most one group of free units.
group_free_groups : (k : ℕ) (rows : Table) → free_groups k (group_by_status rows) ≤ 1
unfolding free_groups count_where group_by_status
group_free_groups k [] = omega arith
group_free_groups k (row ∷ rows) =
    ground (arith, add_free_groups k row (group_by_status rows), group_free_groups k rows)

put_available :
    (k : ℕ) (g : StatusGroup) (result : List (ℕ × InventoryCounts))
    → available_of k (put_group g result)
      ≡ (if is_free_group k g then g.count else available_of k result)
unfolding available_of put_group
put_available k g [] = ground arith
put_available k g ((j, c) ∷ result) = ground (arith, put_available k g result)

put_total :
    (g : StatusGroup) (result : List (ℕ × InventoryCounts))
    → total_available (put_group g result)
        + (if is_available g.group_status then available_of g.category_id result else 0)
      ≡ total_available result + (if is_available g.group_status then g.count else 0)
unfolding total_available available_of put_group
put_total g [] = ground arith
put_total g ((j, c) ∷ result) = ground (arith, put_total g result)

-- Groups that are still to be put, with a map that has no free units for their categories yet.
abbrev IsPendingAt : ℕ → List StatusGroup → List (ℕ × InventoryCounts) → Type 0
IsPendingAt k gs result =
    (free_groups k gs ≤ 1) × ((free_groups k gs ≡ 0) ⊎ (available_of k result ≡ 0))

abbrev IsPending : List StatusGroup → List (ℕ × InventoryCounts) → Type 0
IsPending gs result = (k : ℕ) → IsPendingAt k gs result

pending_rest :
    (k : ℕ) (g : StatusGroup) (gs : List StatusGroup) (result : List (ℕ × InventoryCounts))
    → IsPendingAt k (g ∷ gs) result
    → IsPendingAt k gs (put_group g result)
unfolding free_groups count_where
pending_rest k g gs result (most, inl absent) = (ground arith, inl (ground arith))
pending_rest k g gs result (most, inr empty) = elim (Bool-cases (is_free_group k g)) [
  | inl e ↦ (ground arith, inl (ground arith))
  | inr e ↦ (ground arith, inr (ground (arith, put_available k g result)))
]

total_none : total_available [] ≡ 0
unfolding total_available
total_none = refl

none_available : (k : ℕ) → available_of k [] ≡ 0
unfolding available_of
none_available k = refl

count_selected :
    (tenant_id event_id : ℕ) (rows : Table)
    → count_where
        (λ row. is_available row.status)
        (select_where (λ row. row.tenant_id == tenant_id && row.event_id == event_id) rows)
      ≡ count_where
          (λ row. row.tenant_id == tenant_id && row.event_id == event_id && is_available row.status)
          rows
unfolding count_where select_where
count_selected tenant_id event_id [] = refl
count_selected tenant_id event_id (row ∷ rows) =
    ground (arith, count_selected tenant_id event_id rows)

put_groups_total :
    (gs : List StatusGroup) (result : List (ℕ × InventoryCounts))
    → IsPending gs result
    → total_available (put_groups gs result) ≡ total_available result + free_sum gs
unfolding put_groups free_sum free_groups count_where
put_groups_total [] result pending = omega arith
put_groups_total (g ∷ gs) result pending = ground (
  arith,
  put_total g result,
  pending g.category_id,
  ==_refl g.category_id,
  put_groups_total gs (put_group g result) (λ k. pending_rest k g gs result (pending k)),
)

-- The free units that admitForEvent sums up over the map of CountByStatus are the available units
-- of the event in the table.
pub total_available_lem :
    (tenant_id event_id : ℕ) (rows : Table)
    → total_available (count_by_status tenant_id event_id rows)
      ≡ count_where
          (λ row. row.tenant_id == tenant_id && row.event_id == event_id && is_available row.status)
          rows
unfolding count_by_status
total_available_lem tenant_id event_id rows =
    let rows_of =
      select_where
        (λ (row : EventSeatInventory). row.tenant_id == tenant_id && row.event_id == event_id)
        rows in
    omega (
      arith,
      put_groups_total (group_by_status rows_of) []
          (λ k. (group_free_groups k rows_of, inr (none_available k))),
      total_none,
      group_free_sum rows_of,
      count_selected tenant_id event_id rows,
    )
