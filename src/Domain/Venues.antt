-- ===== src/Domain/Venues.antt =====
-- internal/domain/venue.go: venues, their sections and seats.
use ticketing_backend.Prelude.{ℕ, String, Bool, Option}

pub record Venue : Type 0 where
  pub id : ℕ
  pub tenant_id : ℕ
  pub name : String
  pub address : String
  pub city : String
  pub country : String
  pub timezone : String
  pub capacity : Option ℕ

-- `unset` is the empty text, Go's zero value.
pub data SeatingType : Type 0 where
  unset reserved general_admission : SeatingType

pub record VenueSection : Type 0 where
  pub id : ℕ
  pub tenant_id : ℕ
  pub venue_id : ℕ
  pub name : String
  pub code : String
  pub seating_type : SeatingType
  pub capacity : ℕ

-- A seat's position on the map is left out: nothing computes with it.
pub record Seat : Type 0 where
  pub id : ℕ
  pub tenant_id : ℕ
  pub section_id : ℕ
  pub row_label : String
  pub seat_number : String
  pub is_accessible : Bool
