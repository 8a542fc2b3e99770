-- ===== src/Http/Tenancy.antt =====
-- Lemmas on the repositories' writes and the rows of the other tenants.
use ticketing_backend.Prelude.{
  ℕ, zero, suc, ◌≡◌, ◌∙◌, inl, inr, refl, ap, arith, not, none, some, List, [], ◌∷◌, ◌++◌, ◌==◌,
  Option-cases, Bool-cases, All,
}
use ticketing_backend.Domain.{Error, ok, err, nil_uuid, EventSeatInventory, InventoryStatus}
use ticketing_backend.Domain.Venues.{Venue}
use ticketing_backend.Domain.Events.{Event, SeatCategory, EventTicketCategory, EventStatus}
use ticketing_backend.Sql.{select_where, update_where, count_where}
use ticketing_backend.Store.Action.{Db, World, Env, Action, pure, exec, next, with_id}
use ticketing_backend.Store.SeatCategoryRepo
use ticketing_backend.Store.EventRepo
use ticketing_backend.Store.VenueRepo
use ticketing_backend.Store.Inventory
use ticketing_backend.Store.InventoryRepo
use ticketing_backend.Http.Admin.{new_units, new_unit, put_on_sale, is_unpublished}
use ticketing_backend.Http.Isolation.{
  without_tenant, select-append_out, select-update_out, own_row, Keeps, bind-Keeps, exec-Keeps,
  insert-Keeps,
}

module _ (t : ℕ) where
  adds_seat_categories :
      (row : SeatCategory) (db : Db)
      → row.tenant_id ≡ t
      → without_tenant t (record db { seat_categories = db.seat_categories ++ row ∷ [] })
        ≡ without_tenant t db
  unfolding without_tenant
  adds_seat_categories row db own =
      rw
        (select-append_out (λ (r : SeatCategory). not (r.tenant_id == t)) db.seat_categories row
          (own_row t row.tenant_id own))
        refl

  adds_events :
      (row : Event) (db : Db)
      → row.tenant_id ≡ t
      → without_tenant t (record db { events = db.events ++ row ∷ [] }) ≡ without_tenant t db
  unfolding without_tenant
  adds_events row db own =
      rw
        (select-append_out (λ (r : Event). not (r.tenant_id == t)) db.events row
          (own_row t row.tenant_id own))
        refl

  adds_ticket_categories :
      (row : EventTicketCategory) (db : Db)
      → row.tenant_id ≡ t
      → without_tenant t (record db { ticket_categories = db.ticket_categories ++ row ∷ [] })
        ≡ without_tenant t db
  unfolding without_tenant
  adds_ticket_categories row db own =
      rw
        (select-append_out (λ (r : EventTicketCategory). not (r.tenant_id == t))
          db.ticket_categories row (own_row t row.tenant_id own))
        refl

  adds_venues :
      (row : Venue) (db : Db)
      → row.tenant_id ≡ t
      → without_tenant t (record db { venues = db.venues ++ row ∷ [] }) ≡ without_tenant t db
  unfolding without_tenant
  adds_venues row db own =
      rw
        (select-append_out (λ (r : Venue). not (r.tenant_id == t)) db.venues row
          (own_row t row.tenant_id own))
        refl

  pub seat_category-Keeps :
      (sc : SeatCategory) → sc.tenant_id ≡ t → Keeps t (SeatCategoryRepo.create sc)
  unfolding SeatCategoryRepo.create SeatCategoryRepo.insert_seat_category
  seat_category-Keeps sc own =
      insert-Keeps t sc.id (λ id. SeatCategoryRepo.insert_seat_category (record sc { id = id }))
        (λ id. (record sc { id = id }))
        λ id db. ground (arith, adds_seat_categories (record sc { id = id }) db own)

  pub event-Keeps : (e : Event) → e.tenant_id ≡ t → Keeps t (EventRepo.create e)
  unfolding EventRepo.create EventRepo.insert_event
  event-Keeps e own =
      insert-Keeps t e.id (λ id. EventRepo.insert_event (record e { id = id }))
        (λ id. (record e { id = id }))
        λ id db. ground (arith, adds_events (record e { id = id }) db own)

  pub venue-Keeps : (v : Venue) → v.tenant_id ≡ t → Keeps t (VenueRepo.create_venue v)
  unfolding VenueRepo.create_venue VenueRepo.insert_venue
  venue-Keeps v own =
      insert-Keeps t v.id
        (λ id. VenueRepo.insert_venue (VenueRepo.with_timezone (record v { id = id })))
        (λ id. (VenueRepo.with_timezone (record v { id = id })))
        λ id db. ground (arith, adds_venues (VenueRepo.with_timezone (record v { id = id })) db own)

  limit_tenant :
      (c : EventTicketCategory) → c.tenant_id ≡ t → (EventRepo.with_limit c).tenant_id ≡ t
  limit_tenant c own = elim (Bool-cases (c.max_per_order == 0)) [
    | inl e ↦ rw e own
    | inr e ↦ rw e own
  ]

  insert_category-Keeps :
      (c : EventTicketCategory) (db : Db)
      → c.tenant_id ≡ t
      → without_tenant t (EventRepo.insert_category c db).1 ≡ without_tenant t db
  unfolding EventRepo.insert_category
  insert_category-Keeps c db own = ground (arith, adds_ticket_categories c db own)

  pub category-Keeps :
      (c : EventTicketCategory) → c.tenant_id ≡ t → Keeps t (EventRepo.create_ticket_category c)
  unfolding EventRepo.create_ticket_category
  category-Keeps c own =
      insert-Keeps t c.id
        (λ id. EventRepo.insert_category (EventRepo.with_limit (record c { id = id })))
        (λ id. EventRepo.with_limit (record c { id = id }))
        λ id db.
          insert_category-Keeps (EventRepo.with_limit (record c { id = id })) db
            (limit_tenant (record c { id = id }) own)

  sets_event :
      (e : Event) (db : Db)
      → e.tenant_id ≡ t
      → without_tenant t (record db {
        events =
            update_where (EventRepo.is_event e.tenant_id e.id) (EventRepo.set_event e) db.events;
      })
        ≡ without_tenant t db
  unfolding without_tenant
  sets_event e db own =
      rw
        (select-update_out (λ (r : Event). not (r.tenant_id == t))
          (EventRepo.is_event e.tenant_id e.id) (EventRepo.set_event e) db.events
          (λ row h. (ground arith, ground arith)))
        refl

  update_event-Keeps : (e : Event) → e.tenant_id ≡ t → Keeps t (EventRepo.update e)
  unfolding EventRepo.update EventRepo.update_event
  update_event-Keeps e own =
      exec-Keeps t (EventRepo.update_event e) λ db. ground (arith, sets_event e db own)

  pub put_on_sale-Keeps : (e : Event) → e.tenant_id ≡ t → Keeps t (put_on_sale e)
  unfolding put_on_sale
  put_on_sale-Keeps e own env w = elim (Bool-cases (is_unpublished e.status)) [
    | inl h ↦ rw h (
        bind-Keeps t (EventRepo.update (record e { status = EventStatus.on_sale }))
          (λ _. pure EventStatus.on_sale)
          (update_event-Keeps (record e { status = EventStatus.on_sale }) own) (λ _ env w. refl) env
          w)
    | inr h ↦ rw h refl
  ]

  unfoldable pub IsOwn : EventSeatInventory → Type 0
  IsOwn row = row.tenant_id ≡ t

  insert_batch-out :
      (news rows : List EventSeatInventory) {table : List EventSeatInventory}
      → All IsOwn news
      → Inventory.insert_batch news rows ≡ some table
      → select_where (λ row. not (row.tenant_id == t)) table
        ≡ select_where (λ row. not (row.tenant_id == t)) rows
  unfolding Inventory.insert_batch Inventory.insert_unit IsOwn
  insert_batch-out [] rows own h = ground arith
  insert_batch-out (new ∷ news) rows own h =
      elim (Bool-cases (count_where (Inventory.collides new) rows == 0)) [
        | inl fresh ↦
            insert_batch-out news (rows ++ Inventory.set_free InventoryStatus.available new ∷ [])
              own.1 (ground arith)
            ∙ select-append_out (λ (row : EventSeatInventory). not (row.tenant_id == t)) rows
                (Inventory.set_free InventoryStatus.available new) (own_row t new.tenant_id own.0)
        | inr taken ↦ absurd (ground arith)
      ]

  -- A method that only makes rows of the tenant.
  abbrev pub MakesOwn : Action (List EventSeatInventory) → Type 0
  MakesOwn m =
      (env : Env) (w : World)
      → (rows : List EventSeatInventory) × ((m env w).0 ≡ ok rows)
        × All IsOwn rows
        × ((m env w).1.db ≡ w.db)

  pub new_units-MakesOwn :
      (event_id category_id n : ℕ) → MakesOwn (new_units t event_id category_id n)
  unfolding new_units IsOwn
  new_units-MakesOwn event_id category_id zero env w = ([], refl, tt, refl)
  new_units-MakesOwn event_id category_id (suc n) env w =
      let (rows, good, own, same) = new_units-MakesOwn event_id category_id n env (next w) in
      (
        new_unit t event_id category_id (env.new_uuid w.tick) ∷ rows,
        ground arith,
        (refl, own),
        ground arith,
      )

  pub with_id_given :
      (id : ℕ) (env : Env) (w : World)
      → (id' : ℕ) × ((with_id id env w).0 ≡ ok id') × ((with_id id env w).1.db ≡ w.db)
  with_id_given id env w = elim (Bool-cases (id == nil_uuid)) [
    | inl e ↦ (env.new_uuid w.tick, ground arith, ground arith)
    | inr e ↦ (id, ground arith, ground arith)
  ]

  assign_ids-MakesOwn :
      (rows : List EventSeatInventory) → All IsOwn rows → MakesOwn (InventoryRepo.assign_ids rows)
  unfolding InventoryRepo.assign_ids IsOwn
  assign_ids-MakesOwn [] own env w = ([], refl, tt, refl)
  assign_ids-MakesOwn (row ∷ rows) own env w =
      let (id, given, kept) = with_id_given row.id env w in
      let (news, good, own', same) = assign_ids-MakesOwn rows own.1 env (with_id row.id env w).1 in
      (record row { id = id } ∷ news, ground arith, (own.0, own'), ground arith)

  sets_inventory :
      (rows : List EventSeatInventory) (db : Db)
      → select_where (λ row. not (row.tenant_id == t)) rows
        ≡ select_where (λ row. not (row.tenant_id == t)) db.inventory
      → without_tenant t (record db { inventory = rows }) ≡ without_tenant t db
  unfolding without_tenant
  sets_inventory rows db h = rw h refl

  abbrev insert_rows : List EventSeatInventory → Action (Unit {0})
  insert_rows news = exec λ db. elim (Inventory.insert_batch news db.inventory) [
    | none ↦ (err Error.other, db)
    | some table ↦ (ok tt, record db { inventory = table })
  ]

  batch-Keeps : (news : List EventSeatInventory) → All IsOwn news → Keeps t (insert_rows news)
  batch-Keeps news own env w = elim (Option-cases (Inventory.insert_batch news w.db.inventory)) [
    | inl refused ↦ ground arith
    | inr (table, taken) ↦
        ground (arith, sets_inventory table w.db (insert_batch-out news w.db.inventory own taken))
  ]

  pub bulk_create-Keeps :
      (rows : List EventSeatInventory) → All IsOwn rows → Keeps t (InventoryRepo.bulk_create rows)
  unfolding InventoryRepo.bulk_create
  bulk_create-Keeps [] own env w = refl
  bulk_create-Keeps (row ∷ rows) own env w =
      let (news, good, own', same) = assign_ids-MakesOwn (row ∷ rows) own env w in
      let w' = (InventoryRepo.assign_ids (row ∷ rows) env w).1 in
      let run : InventoryRepo.bulk_create (row ∷ rows) env w ≡ insert_rows news env w' =
        ground (arith, good) in
      rw run (batch-Keeps news own' env w' ∙ ap (without_tenant t) same)
