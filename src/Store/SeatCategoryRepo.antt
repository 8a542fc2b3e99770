-- ===== src/Store/SeatCategoryRepo.antt =====
-- internal/repository/postgres/seatcategory.go: the table seat_categories.
use ticketing_backend.Prelude.{
  ℕ, Bool, ◌&&◌, ◌||◌, List, [], ◌∷◌, ◌++◌, ◌==◌, if◌then◌else◌, str_eq,
}
use ticketing_backend.Domain.{Error, Result, ok, err}
use ticketing_backend.Domain.Events.{SeatCategory}
use ticketing_backend.Sql.{count_where, select_where, sort_by}
use ticketing_backend.Store.Action.{Db, Action, pure, ◌>>=◌, ◌>>◌, exec, with_id}

-- The PRIMARY KEY, and UNIQUE (tenant_id, name)
abbrev pub seat_category_collides : SeatCategory → SeatCategory → Bool
seat_category_collides new s =
    s.id == new.id || s.tenant_id == new.tenant_id && str_eq s.name new.name

unfoldable pub insert_seat_category : SeatCategory → Db → Result (Unit {0}) × Db
insert_seat_category new db =
    if count_where (seat_category_collides new) db.seat_categories == 0
    then (ok tt, record db { seat_categories = db.seat_categories ++ new ∷ [] })
    else (err Error.conflict, db)

unfoldable pub create : SeatCategory → Action SeatCategory
unfolding insert_seat_category
create sc = do
  id ← with_id sc.id
  exec (insert_seat_category (record sc { id = id }))
  pure (record sc { id = id })

-- ListByTenant; the order of the names is the database's.
unfoldable pub list_by_tenant : ℕ → Action (List SeatCategory)
list_by_tenant tenant_id env =
    exec
      (λ db. (
        ok (
            sort_by (λ s t. env.precedes s.name t.name)
              (select_where (λ s. s.tenant_id == tenant_id) db.seat_categories)),
        db,
      ))
      env
