-- ===== src/Store/Inventory.antt =====
-- internal/repository/postgres/inventory.go: the statements on event_seat_inventory, each one a
-- function of the table. The repository's methods, which send them, are in InventoryRepo.antt.
use ticketing_backend.Prelude.{
  ◌+◌, ℕ, Bool, true, false, ◌&&◌, ◌||◌, Option, none, some, List, [], ◌∷◌, ◌++◌, ltb, ◌==◌,
  is_value, if◌then◌else◌, take,
}
use ticketing_backend.Domain.{
  InventoryStatus, is_available, is_held, EventSeatInventory, InventoryCounts,
}
use ticketing_backend.Sql.{update_where, count_where, select_first, select_where, order_by}

-- WHERE id = … AND tenant_id = …
abbrev pub is_unit : ℕ → ℕ → EventSeatInventory → Bool
is_unit tenant_id id row = row.id == id && row.tenant_id == tenant_id

-- … AND status = 'held' AND hold_token = …
abbrev pub holds : ℕ → EventSeatInventory → Bool
holds hold_token row = is_held row.status && is_value row.hold_token hold_token

abbrev pub set_held : ℕ → ℕ → ℕ → EventSeatInventory → EventSeatInventory
set_held hold_token user_id expires_at row = record row {
  status = InventoryStatus.held;
  hold_token = some hold_token;
  held_by_user_id = some user_id;
  hold_expires_at = some expires_at;
}

-- SET status = …, hold_token = NULL, held_by_user_id = NULL, hold_expires_at = NULL
abbrev pub set_free : InventoryStatus → EventSeatInventory → EventSeatInventory
set_free status row = record row {
  status = status;
  hold_token = none;
  held_by_user_id = none;
  hold_expires_at = none;
}

abbrev pub Table : Type 0
Table = List EventSeatInventory

-- An UPDATE whose result is whether it affected exactly one row.
abbrev affects_one :
    (EventSeatInventory → Bool) → (EventSeatInventory → EventSeatInventory) → Table → Bool × Table
affects_one clause change rows = (count_where clause rows == 1, update_where clause change rows)

unfoldable pub hold : ℕ → ℕ → ℕ → ℕ → ℕ → Table → Bool × Table
hold tenant_id id hold_token user_id expires_at =
    affects_one (λ row. is_unit tenant_id id row && is_available row.status)
      (set_held hold_token user_id expires_at)

unfoldable pub release : ℕ → ℕ → ℕ → Table → Bool × Table
release tenant_id id hold_token =
    affects_one (λ row. is_unit tenant_id id row && holds hold_token row)
      (set_free InventoryStatus.available)

unfoldable pub confirm_sale : ℕ → ℕ → ℕ → Table → Bool × Table
confirm_sale tenant_id id hold_token =
    affects_one (λ row. is_unit tenant_id id row && holds hold_token row)
      (set_free InventoryStatus.sold)

-- The result is false where no row was affected, for which the method returns ErrNotFound.
unfoldable pub void : ℕ → ℕ → Table → Bool × Table
void tenant_id id rows = (
  (if count_where (is_unit tenant_id id) rows == 0 then false else true),
  update_where (is_unit tenant_id id) (set_free InventoryStatus.void) rows,
)

unfoldable pub get_by_id : ℕ → ℕ → Table → Option EventSeatInventory
get_by_id tenant_id id = select_first (is_unit tenant_id id)

-- hold_expires_at < before, which a NULL never satisfies
abbrev pub expires_before : ℕ → Option ℕ → Bool
expires_before before none = false
expires_before before (some t) = ltb t before

abbrev pub is_expired_hold : ℕ → EventSeatInventory → Bool
is_expired_hold before row = is_held row.status && expires_before before row.hold_expires_at

abbrev pub expiry : EventSeatInventory → ℕ
expiry row = elim row.hold_expires_at [ none ↦ 0 | some t ↦ t ]

unfoldable pub list_expired_holds : ℕ → ℕ → Table → List EventSeatInventory
list_expired_holds before limit rows =
    take limit (order_by expiry (select_where (is_expired_hold before) rows))

-- The PRIMARY KEY, and UNIQUE (event_id, seat_id), which exempts a NULL seat.
abbrev pub collides : EventSeatInventory → EventSeatInventory → Bool
collides new row =
    row.id == new.id
    || row.event_id == new.event_id
      && elim new.seat_id [ none ↦ false | some seat ↦ is_value row.seat_id seat ]

-- One INSERT … VALUES (…, 'available'); `none` is the violation of a key.
unfoldable pub insert_unit : EventSeatInventory → Table → Option Table
insert_unit new rows =
    if count_where (collides new) rows == 0
    then some (rows ++ set_free InventoryStatus.available new ∷ [])
    else none

-- A batch is one implicit transaction: the first INSERT that fails undoes those before it.
unfoldable pub insert_batch : List EventSeatInventory → Table → Option Table
unfolding insert_unit
insert_batch [] rows = some rows
insert_batch (new ∷ news) rows = elim (insert_unit new rows) [
  | none ↦ none
  | some rows' ↦ insert_batch news rows'
]

-- The switch of CountByStatus: `counts.f = count`.
abbrev set_count : InventoryStatus → ℕ → InventoryCounts → InventoryCounts
set_count InventoryStatus.available n c = record c { available = n }
set_count InventoryStatus.held n c = record c { held = n }
set_count InventoryStatus.sold n c = record c { sold = n }
set_count InventoryStatus.void n c = record c { void = n }

-- A row of SELECT event_ticket_category_id, status, count(*) … GROUP BY the first two.
pub record StatusGroup : Type 0 where
  pub category_id : ℕ
  pub group_status : InventoryStatus
  pub count : ℕ

abbrev same_inventory_status : InventoryStatus → InventoryStatus → Bool
same_inventory_status InventoryStatus.available s = is_available s
same_inventory_status InventoryStatus.held s = is_held s
same_inventory_status InventoryStatus.sold InventoryStatus.sold = true
same_inventory_status InventoryStatus.void InventoryStatus.void = true
same_inventory_status InventoryStatus.sold s = false
same_inventory_status InventoryStatus.void s = false

abbrev in_group : EventSeatInventory → StatusGroup → Bool
in_group row g =
    g.category_id == row.event_ticket_category_id && same_inventory_status g.group_status row.status

-- The groups with one row more.
unfoldable pub add_to_groups : EventSeatInventory → List StatusGroup → List StatusGroup
add_to_groups row [] =
    record { category_id = row.event_ticket_category_id; group_status = row.status; count = 1 } ∷ []
add_to_groups row (g ∷ gs) =
    if in_group row g then record g { count = g.count + 1 } ∷ gs else g ∷ add_to_groups row gs

unfoldable pub group_by_status : Table → List StatusGroup
unfolding add_to_groups
group_by_status [] = []
group_by_status (row ∷ rows) = add_to_groups row (group_by_status rows)

abbrev no_counts : InventoryCounts
no_counts = record { available = 0; held = 0; sold = 0; void = 0 }

-- `counts := result[g.category]`, its field set, and stored again: a map is an association list.
unfoldable pub put_group : StatusGroup → List (ℕ × InventoryCounts) → List (ℕ × InventoryCounts)
put_group g [] = (g.category_id, set_count g.group_status g.count no_counts) ∷ []
put_group g ((k, c) ∷ rest) =
    if k == g.category_id
    then (k, set_count g.group_status g.count c) ∷ rest
    else (k, c) ∷ put_group g rest

unfoldable pub put_groups :
    List StatusGroup → List (ℕ × InventoryCounts) → List (ℕ × InventoryCounts)
unfolding put_group
put_groups [] result = result
put_groups (g ∷ gs) result = put_groups gs (put_group g result)

unfoldable pub count_by_status : ℕ → ℕ → Table → List (ℕ × InventoryCounts)
count_by_status tenant_id event_id rows =
    put_groups
      (group_by_status
        (select_where (λ row. row.tenant_id == tenant_id && row.event_id == event_id) rows))
      []

-- counts[category].Available, which is 0 for a key that the map lacks
unfoldable pub available_of : ℕ → List (ℕ × InventoryCounts) → ℕ
available_of category [] = 0
available_of category ((k, c) ∷ counts) =
    if k == category then c.available else available_of category counts
