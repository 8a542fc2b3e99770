-- ===== src/Http/Publishing.antt =====
-- What a publication of admin_event.go does to the inventory.
use ticketing_backend.Prelude.{ℕ, ◌≡◌, String, Option, some, List, ◌++◌, length, All}
use ticketing_backend.Domain.{EventSeatInventory}
use ticketing_backend.Domain.Events.{EventStatus}
use ticketing_backend.Store.Action.{World}
use ticketing_backend.Store.EventRepo
use ticketing_backend.Store.InventoryRepo
use ticketing_backend.Auth.{Externals}
use ticketing_backend.Http.{Reply, reply}
use ticketing_backend.Http.Gate.{Context, tenant_id_from_context}
use ticketing_backend.Http.Admin.{AdminChecks, PublishEventRequest}
use ticketing_backend.Http.NewUnits.{IsFree}

module _ (ext : Externals) (checks : AdminChecks) where
  -- The reply of a publication that succeeded, and the inventory that it left.
  abbrev pub IsGenerated :
      String
      → Option PublishEventRequest
      → Context
      → World
      → Reply (ℕ × EventStatus) × World
      → Type 0
  IsGenerated id body ctx w done =
      (t : ℕ) × (event_id : ℕ) × (category_id : ℕ) × (req : PublishEventRequest)
      × (status : EventStatus) × (units : List EventSeatInventory) × (tenant_id_from_context ext ctx
          ≡ some t)
      × (ext.parse_uuid id ≡ some event_id)
      × (body ≡ some req)
      × (ext.parse_uuid req.event_ticket_category_id ≡ some category_id)
      × (done.0 ≡ reply 201 (req.quantity, status))
      × (length units ≡ req.quantity)
      × All (IsFree t event_id category_id) units
      × (done.1.db.inventory ≡ w.db.inventory ++ units)
