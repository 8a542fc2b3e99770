-- ===== src/Store/VenueRepo.antt =====
-- internal/repository/postgres/venue.go: venues, sections and seats, with the keys of
-- migrations/000004_venues_and_seatmap.up.sql.
use ticketing_backend.Prelude.{
  ℕ, String, Bool, ◌&&◌, ◌||◌, not, Option, none, some, List, [], ◌∷◌, ◌++◌, ◌==◌, if◌then◌else◌,
  str_eq, take, drop,
}
use ticketing_backend.Domain.{Error, Result, ok, err}
use ticketing_backend.Domain.Venues.{Venue, VenueSection, Seat, SeatingType}
use ticketing_backend.Sql.{count_where, select_first, select_where, update_where, sort_by}
use ticketing_backend.Store.Action.{Db, Action, pure, ◌>>=◌, ◌>>◌, exec, or_not_found, with_id}
use ticketing_backend.Store.EventRepo.{is_venue}

-- The default that CreateVenue fills in.
abbrev pub with_timezone : Venue → Venue
with_timezone v = record v {
  timezone = if str_eq v.timezone "" then "Africa/Nairobi" else v.timezone;
}

unfoldable pub insert_venue : Venue → Db → Result (Unit {0}) × Db
insert_venue new db =
    if count_where (λ v. v.id == new.id) db.venues == 0
    then (ok tt, record db { venues = db.venues ++ new ∷ [] })
    else (err Error.other, db)

unfoldable pub create_venue : Venue → Action Venue
unfolding insert_venue
create_venue v = do
  id ← with_id v.id
  exec (insert_venue (with_timezone (record v { id = id })))
  pure (with_timezone (record v { id = id }))

unfoldable pub get_venue : ℕ → ℕ → Action Venue
get_venue tenant_id id =
    exec λ db. (or_not_found (select_first (is_venue tenant_id id) db.venues), db)

-- The order of the names is the database's.
unfoldable pub list_venues : ℕ → ℕ → ℕ → Action (List Venue)
list_venues tenant_id limit offset env =
    exec
      (λ db. (
        ok (
            take limit (
              drop offset (
                sort_by (λ s t. env.precedes s.name t.name)
                  (select_where (λ v. v.tenant_id == tenant_id) db.venues)))),
        db,
      ))
      env

abbrev pub set_venue : Venue → Venue → Venue
set_venue new v = record v {
  name = new.name;
  address = new.address;
  city = new.city;
  country = new.country;
  timezone = new.timezone;
  capacity = new.capacity;
}

unfoldable pub update_venue : Venue → Action (Unit {0})
update_venue new = exec λ db.
    if count_where (is_venue new.tenant_id new.id) db.venues == 0
    then (err Error.not_found, db)
    else (
      ok tt,
      record db { venues = update_where (is_venue new.tenant_id new.id) (set_venue new) db.venues },
    )

abbrev seating_or_reserved : SeatingType → SeatingType
seating_or_reserved SeatingType.unset = SeatingType.reserved
seating_or_reserved type = type

abbrev pub with_seating : VenueSection → VenueSection
with_seating s = record s { seating_type = seating_or_reserved s.seating_type }

-- The PRIMARY KEY, UNIQUE (venue_id, code), and the FOREIGN KEY (venue_id, tenant_id)
unfoldable pub insert_section : VenueSection → Db → Result (Unit {0}) × Db
insert_section new db =
    if count_where (λ s. s.id == new.id || s.venue_id == new.venue_id && str_eq s.code new.code)
        db.venue_sections
      == 0
    then (if count_where (is_venue new.tenant_id new.venue_id) db.venues == 0
        then (err Error.other, db)
        else (ok tt, record db { venue_sections = db.venue_sections ++ new ∷ [] }))
    else (err Error.conflict, db)

unfoldable pub create_section : VenueSection → Action (Unit {0})
unfolding insert_section
create_section s = do id ← with_id s.id; exec (insert_section (with_seating (record s { id = id })))

unfoldable pub list_sections_by_venue : ℕ → ℕ → Action (List VenueSection)
list_sections_by_venue tenant_id venue_id env =
    exec
      (λ db. (
        ok (
            sort_by (λ s t. env.precedes s.name t.name)
              (select_where (λ s. s.tenant_id == tenant_id && s.venue_id == venue_id)
                db.venue_sections)),
        db,
      ))
      env

abbrev seat_collides : Seat → Seat → Bool
seat_collides new s =
    s.id == new.id
    || s.section_id == new.section_id
      && str_eq s.row_label new.row_label
      && str_eq s.seat_number new.seat_number

-- One INSERT of the batch; `none` is the violation of a key, also of the section's.
unfoldable pub insert_seat : Seat → Db → Option Db
insert_seat new db =
    if count_where (seat_collides new) db.seats == 0
      && not (
          count_where (λ s. s.id == new.section_id && s.tenant_id == new.tenant_id)
            db.venue_sections
          == 0)
    then some (record db { seats = db.seats ++ new ∷ [] })
    else none

-- The batch is one implicit transaction.
unfoldable pub insert_seats : List Seat → Db → Option Db
unfolding insert_seat
insert_seats [] db = some db
insert_seats (new ∷ news) db = elim (insert_seat new db) [
  | none ↦ none
  | some db' ↦ insert_seats news db'
]

unfoldable pub seat_rows : List Seat → Action (List Seat)
seat_rows [] = pure []
seat_rows (s ∷ ss) = do id ← with_id s.id; rest ← seat_rows ss; pure (record s { id = id } ∷ rest)

-- No statement is sent for no seats.
unfoldable pub create_seats_bulk : List Seat → Action (Unit {0})
unfolding seat_rows insert_seats
create_seats_bulk [] = pure tt
create_seats_bulk (s ∷ ss) = do
  news ← seat_rows (s ∷ ss)
  exec λ db. elim (insert_seats news db) [ none ↦ (err Error.other, db) | some db' ↦ (ok tt, db') ]

-- ORDER BY row_label, seat_number
abbrev seat_precedes : (String → String → Bool) → Seat → Seat → Bool
seat_precedes precedes s t =
    precedes s.row_label t.row_label
    || not (precedes t.row_label s.row_label) && precedes s.seat_number t.seat_number

unfoldable pub list_seats_by_section : ℕ → ℕ → Action (List Seat)
list_seats_by_section tenant_id section_id env =
    exec
      (λ db. (
        ok (
            sort_by (seat_precedes env.precedes) (
              select_where (λ s. s.tenant_id == tenant_id && s.section_id == section_id) db.seats)),
        db,
      ))
      env
