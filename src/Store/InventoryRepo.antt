-- ===== src/Store/InventoryRepo.antt =====
-- The methods of InventoryRepo (internal/repository/postgres/inventory.go), each of which sends
-- one statement of Inventory.antt to the executor.
use ticketing_backend.Prelude.{ℕ, Bool, none, some, List, [], ◌∷◌, if◌then◌else◌}
use ticketing_backend.Domain.{Error, ok, err, InventoryCounts, EventSeatInventory}
use ticketing_backend.Store.Inventory
use ticketing_backend.Store.Inventory.{Table}
use ticketing_backend.Store.Action.{Action, pure, ◌>>=◌, exec, with_id, or_not_found}

abbrev on_inventory : {A : Type 0} → (Table → A × Table) → Action A
on_inventory statement =
    exec λ db. let (a, rows) = statement db.inventory in (ok a, record db { inventory = rows })

unfoldable pub hold : ℕ → ℕ → ℕ → ℕ → ℕ → Action Bool
hold tenant_id id hold_token user_id expires_at =
    on_inventory (Inventory.hold tenant_id id hold_token user_id expires_at)

unfoldable pub release : ℕ → ℕ → ℕ → Action Bool
release tenant_id id hold_token = on_inventory (Inventory.release tenant_id id hold_token)

unfoldable pub confirm_sale : ℕ → ℕ → ℕ → Action Bool
confirm_sale tenant_id id hold_token = on_inventory (Inventory.confirm_sale tenant_id id hold_token)

unfoldable pub void : ℕ → ℕ → Action (Unit {0})
void tenant_id id = exec λ db.
    let (found, rows) = Inventory.void tenant_id id db.inventory in
    (if found then ok tt else err Error.not_found, record db { inventory = rows })

unfoldable pub get_by_id : ℕ → ℕ → Action EventSeatInventory
get_by_id tenant_id id =
    exec λ db. (or_not_found (Inventory.get_by_id tenant_id id db.inventory), db)

unfoldable pub list_expired_holds : ℕ → ℕ → Action (List EventSeatInventory)
list_expired_holds before limit =
    exec λ db. (ok (Inventory.list_expired_holds before limit db.inventory), db)

unfoldable pub assign_ids : List EventSeatInventory → Action (List EventSeatInventory)
assign_ids [] = pure []
assign_ids (row ∷ rows) = do
  id ← with_id row.id
  rest ← assign_ids rows
  pure (record row { id = id } ∷ rest)

-- No statement is sent for no rows.
unfoldable pub bulk_create : List EventSeatInventory → Action (Unit {0})
unfolding assign_ids
bulk_create [] = pure tt
bulk_create (row ∷ rows) = do
  news ← assign_ids (row ∷ rows)
  exec λ db. elim (Inventory.insert_batch news db.inventory) [
    | none ↦ (err Error.other, db)
    | some table ↦ (ok tt, record db { inventory = table })
  ]

unfoldable pub count_by_status : ℕ → ℕ → Action (List (ℕ × InventoryCounts))
count_by_status tenant_id event_id =
    exec λ db. (ok (Inventory.count_by_status tenant_id event_id db.inventory), db)
