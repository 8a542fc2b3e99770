-- ===== src/Http/NewUnits.antt =====
-- The units that the loop of PublishEvent makes, and BulkCreate of them.
use ticketing_backend.Prelude.{
  ℕ, zero, suc, ◌≡◌, ◌∙◌, sym, inl, inr, refl, ap, arith, some, List, [], ◌∷◌, ◌++◌, ◌==◌,
  append-nil, append_assoc, length, All, Bool-cases, Option-cases,
}
use ticketing_backend.Domain.{ok, EventSeatInventory, InventoryStatus}
use ticketing_backend.Sql.{count_where}
use ticketing_backend.Store.Action.{Db, World, Env, with_id, next}
use ticketing_backend.Store.Inventory
use ticketing_backend.Store.InventoryRepo
use ticketing_backend.Http.Tenancy.{with_id_given}
use ticketing_backend.Http.Admin.{new_units, new_unit}

module _ (t event_id category_id : ℕ) where
  -- A free general-admission unit of the tenant, the event and the category.
  abbrev pub IsFree : EventSeatInventory → Type 0
  IsFree row = row ≡ new_unit t event_id category_id row.id

  pub made :
      (n : ℕ) (env : Env) (w : World)
      → (rows : List EventSeatInventory) × ((new_units t event_id category_id n env w).0 ≡ ok rows)
        × (length rows ≡ n)
        × All IsFree rows
        × ((new_units t event_id category_id n env w).1.db ≡ w.db)
  unfolding new_units
  made zero env w = ([], refl, refl, tt, refl)
  made (suc n) env w =
      let (rows, good, long, free, same) = made n env (next w) in
      (
        new_unit t event_id category_id (env.new_uuid w.tick) ∷ rows,
        ground arith,
        ap suc long,
        (refl, free),
        ground arith,
      )

  set_free_same :
      (row : EventSeatInventory)
      → IsFree row
      → Inventory.set_free InventoryStatus.available row ≡ row
  set_free_same row free = ap (Inventory.set_free InventoryStatus.available) free ∙ sym free

  insert_batch-ok :
      (news rows : List EventSeatInventory) {table : List EventSeatInventory}
      → All IsFree news
      → Inventory.insert_batch news rows ≡ some table
      → table ≡ rows ++ news
  unfolding Inventory.insert_batch Inventory.insert_unit
  insert_batch-ok [] rows free h = ground (arith, append-nil rows)
  insert_batch-ok (new ∷ news) rows free h =
      elim (Bool-cases (count_where (Inventory.collides new) rows == 0)) [
        | inr taken ↦ absurd (ground arith)
        | inl fresh ↦
            insert_batch-ok news (rows ++ Inventory.set_free InventoryStatus.available new ∷ [])
              free.1 (ground arith)
            ∙ append_assoc rows (Inventory.set_free InventoryStatus.available new ∷ []) news
            ∙ ap (λ row. rows ++ row ∷ news) (set_free_same new free.0)
      ]

  assigned :
      (rows : List EventSeatInventory) (env : Env) (w : World)
      → All IsFree rows
      → (news : List EventSeatInventory) × ((InventoryRepo.assign_ids rows env w).0 ≡ ok news)
        × (length news ≡ length rows)
        × All IsFree news
        × ((InventoryRepo.assign_ids rows env w).1.db ≡ w.db)
  unfolding InventoryRepo.assign_ids
  assigned [] env w free = ([], refl, refl, tt, refl)
  assigned (row ∷ rows) env w free =
      let (id, given, kept) = with_id_given t row.id env w in
      let (news, good, long, free', same) = assigned rows env (with_id row.id env w).1 free.1 in
      (
        record row { id = id } ∷ news,
        ground arith,
        ap suc long,
        (ap (λ (r : EventSeatInventory). record r { id = id }) free.0, free'),
        ground arith,
      )

  -- What a method left: so many free units more.
  abbrev pub Adds : ℕ → World → World → Type 0
  Adds n w w' =
      (units : List EventSeatInventory) × (length units ≡ n)
      × All IsFree units
      × (w'.db ≡ record w.db { inventory = w.db.inventory ++ units })

  pub stored :
      (rows : List EventSeatInventory) (env : Env) (w : World)
      → All IsFree rows
      → (InventoryRepo.bulk_create rows env w).0 ≡ ok tt
      → Adds (length rows) w (InventoryRepo.bulk_create rows env w).1
  unfolding InventoryRepo.bulk_create
  stored [] env w free h =
      ([], refl, tt, ap (λ i. record w.db { inventory = i }) (sym (append-nil w.db.inventory)))
  stored (row ∷ rows) env w free h =
      let (news, good, long, free', same) = assigned (row ∷ rows) env w free in
      let w' = (InventoryRepo.assign_ids (row ∷ rows) env w).1 in
      elim (Option-cases (Inventory.insert_batch news w'.db.inventory)) [
        | inl refused ↦ absurd (ground arith)
        | inr (table, taken) ↦
            let all : table ≡ w.db.inventory ++ news =
              insert_batch-ok news w'.db.inventory free' taken
              ∙ ap (λ (db : Db). db.inventory ++ news) same in
            (news, long, free', ground (arith, all))
      ]
