-- ===== src/Holding/Backlog.antt =====
-- What one sweep takes off the backlog, where no statement fails.
use ticketing_backend.Prelude.{
  ℕ, ◌+◌, ◌≤◌, ◌≡◌, ◌∙◌, sym, subst, inl, inr, arith, false, some, List, [], ◌∷◌, min, All,
  Bool-cases,
}
use ticketing_backend.Domain.{EventSeatInventory, ok}
use ticketing_backend.Sql.{count_where}
use ticketing_backend.Store.Inventory
use ticketing_backend.Store.Inventory.{
  Table, is_unit, get_by_id, is_expired_hold, list_expired_holds,
}
use ticketing_backend.Store.InventoryRepo
use ticketing_backend.Store.Action.{World, Env, next}
use ticketing_backend.SeatInventory.Keys.{IsKeyed}
use ticketing_backend.SeatInventory.Calls.{UnitCall, unit_step, unit_step-IsKeyed}
use ticketing_backend.SeatInventory.Machine.{IsConsistent}
use ticketing_backend.SeatInventory.Backlog.{backlog}
use ticketing_backend.SeatInventory.Reclaimed.{
  IsFound, AreApart, All-map, All-both, release-backlog, listed-backlog, listed-IsFound,
  listed-IsKeyed, keyed-AreApart,
}
use ticketing_backend.Holding.Sweep.{release_row, release_rows, sweep_expired_holds}
use ticketing_backend.Holding.Reclaim.{release_other}

module _ (env : Env) (calm : (n : ℕ) → env.fails n ≡ false) where
  -- The release of a listed row: it ends without an error, in the table of its statement.
  release_row_calm :
      (k : ℕ) (r : EventSeatInventory) (w : World)
      → r.hold_token ≡ some k
      → let statement = Inventory.release r.tenant_id r.id k w.db.inventory in
        ((release_row r env w).0 ≡ ok statement.0)
        × ((release_row r env w).1.db.inventory ≡ statement.1)
  unfolding release_row InventoryRepo.release
  release_row_calm k r w token = ground (arith, calm w.tick)

  IsFound-after :
      (k : ℕ) (r r' : EventSeatInventory) (rows : Table)
      → is_unit r'.tenant_id r'.id r ≡ false
      → IsFound rows r'
      → IsFound (Inventory.release r.tenant_id r.id k rows).1 r'
  IsFound-after k r r' rows apart found =
      (release_other r'.tenant_id r'.id r k rows apart ∙ found.0, found.1, found.2)

  release_rows-backlog :
      (since n : ℕ) (rs : List EventSeatInventory) (w : World)
      → IsKeyed w.db.inventory
      → All (IsFound w.db.inventory) rs
      → AreApart rs
      → backlog since (release_rows n rs env w).1.db.inventory
          + count_where (is_expired_hold since) rs
        ≡ backlog since w.db.inventory
  unfolding release_rows count_where unit_step
  release_rows-backlog since n [] w keyed found apart = omega arith
  release_rows-backlog since n (r ∷ rs) w keyed found apart =
      let (k, token) = found.0.2 in
      let rows = w.db.inventory in
      let w' = (release_row r env w).1 in
      let (ends, table) = release_row_calm k r w token in
      let one = release-backlog since k r rows keyed found.0 token in
      let keyed' : IsKeyed w'.db.inventory =
        subst IsKeyed (sym table)
          (unit_step-IsKeyed r.tenant_id r.id (UnitCall.release k) rows keyed) in
      let found' : All (IsFound w'.db.inventory) rs =
        subst (λ t. All (IsFound t) rs) (sym table)
          (All-map _ _ rs (λ r' h. IsFound-after k r r' rows h.0 h.1)
            (All-both _ _ rs apart.0 found.1)) in
      let rest = λ (m : ℕ). release_rows-backlog since m rs w' keyed' found' apart.1 in
      elim (Bool-cases (Inventory.release r.tenant_id r.id k rows).0) [
        | inl freed ↦ ground (arith, ends, one, table, rest (n + 1))
        | inr missed ↦ ground (arith, ends, one, table, rest n)
      ]

  -- A sweep without failures takes the backlog of an instant that has passed down by the batch
  -- size, or to nothing.
  pub sweep-backlog :
      (since batch : ℕ) (w : World)
      → since ≤ env.clock w.tick
      → IsKeyed w.db.inventory
      → All IsConsistent w.db.inventory
      → backlog since (sweep_expired_holds batch env w).1.db.inventory
          + min batch (backlog since w.db.inventory)
        ≡ backlog since w.db.inventory
  unfolding sweep_expired_holds InventoryRepo.list_expired_holds
  sweep-backlog since batch w le keyed consistent =
      let rows = w.db.inventory in
      let before = env.clock w.tick in
      let listed = list_expired_holds before batch rows in
      let released =
        release_rows-backlog since 0 listed (next (next w)) keyed
          (listed-IsFound before batch rows keyed consistent)
          (keyed-AreApart listed (listed-IsKeyed before batch rows keyed)) in
      ground (arith, calm (next w).tick, released, listed-backlog since before batch rows le)
