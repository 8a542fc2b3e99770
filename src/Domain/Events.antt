-- ===== src/Domain/Events.antt =====
-- internal/domain/event.go: events, their ticket categories and the rule for "on sale now".
use ticketing_backend.Prelude.{ℕ, Bool, true, false, not, ◌&&◌, ltb, String, Option}
use ticketing_backend.Domain.Amounts.{Money}

pub data EventStatus : Type 0 where
  draft scheduled on_sale sold_out completed cancelled : EventStatus

abbrev pub is_on_sale_status : EventStatus → Bool
is_on_sale_status EventStatus.on_sale = true
is_on_sale_status _ = false

-- An empty competition or team stands for NULL too, as scanEvent reads it.
pub record Event : Type 0 where
  pub id : ℕ
  pub tenant_id : ℕ
  pub venue_id : ℕ
  pub name : String
  pub competition : String
  pub home_team : String
  pub away_team : String
  pub starts_at : ℕ
  pub doors_open_at : Option ℕ
  pub sales_start_at : ℕ
  pub sales_end_at : ℕ
  pub status : EventStatus

pub record EventTicketCategory : Type 0 where
  pub id : ℕ
  pub tenant_id : ℕ
  pub event_id : ℕ
  pub seat_category_id : ℕ
  pub price : Money
  pub max_per_order : ℕ

unfoldable pub is_on_sale : Event → ℕ → Bool
is_on_sale e now =
    is_on_sale_status e.status && not (ltb now e.sales_start_at) && ltb now e.sales_end_at

pub record SeatCategory : Type 0 where
  pub id : ℕ
  pub tenant_id : ℕ
  pub name : String
  pub color : String
