-- ===== src/Holding/Sweep.antt =====
-- The methods of the inventory service that only use the table, among them the sweep.
use ticketing_backend.Prelude.{ℕ, ◌+◌, Bool, true, false, Option, none, some, List, [], ◌∷◌}
use ticketing_backend.Domain.{Error, Result, ok, err, EventSeatInventory}
use ticketing_backend.Store.InventoryRepo
use ticketing_backend.Store.Action.{World, Env, Action, now, pure, guard, ◌>>=◌}

unfoldable pub release_hold : ℕ → ℕ → ℕ → Action (Unit {0})
release_hold tenant_id inventory_id hold_token = do
  released ← InventoryRepo.release tenant_id inventory_id hold_token
  guard released Error.expired

unfoldable pub confirm_sale : ℕ → ℕ → ℕ → Action (Unit {0})
confirm_sale tenant_id inventory_id hold_token = do
  sold ← InventoryRepo.confirm_sale tenant_id inventory_id hold_token
  guard sold Error.expired

-- A row without a token is skipped.
unfoldable pub release_row : EventSeatInventory → Action Bool
release_row row = elim row.hold_token [
  | none ↦ pure false
  | some token ↦ InventoryRepo.release row.tenant_id row.id token
]

-- The loop of the sweep, from the given number of rows that were released. Its result is the
-- final number with the error that ended it, if one did.
unfoldable pub release_rows : ℕ → List EventSeatInventory → Env → World → (ℕ × Option Error) × World
unfolding release_row
release_rows released [] env w = ((released, none), w)
release_rows released (row ∷ rows) env w =
    let (r, w') = release_row row env w in
    elim r [
      | ok true ↦ release_rows (released + 1) rows env w'
      | ok false ↦ release_rows released rows env w'
      | err e ↦ ((released, some e), w')
    ]

abbrev pub swept : Result (List EventSeatInventory) → Env → World → (ℕ × Option Error) × World
swept (ok rows) env w = release_rows 0 rows env w
swept (err e) env w = ((0, some e), w)

unfoldable pub sweep_expired_holds : ℕ → Env → World → (ℕ × Option Error) × World
sweep_expired_holds batch_size env w =
    let (r, w') = (now >>= λ instant. InventoryRepo.list_expired_holds instant batch_size) env w in
    swept r env w'
