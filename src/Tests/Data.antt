-- ===== src/Tests/Data.antt =====
-- A tenant's tables: a free unit, a held one and a sold one, and an order for the held one with
-- its item and its payment.
use ticketing_backend.Prelude.{◌+◌, arith, true, false, none, some, [], ◌∷◌}
use ticketing_backend.Domain.Amounts.{Money}
use ticketing_backend.Domain.Accounts.{User, UserStatus, UserRole, RefreshToken}
use ticketing_backend.Domain.Events.{EventTicketCategory}
use ticketing_backend.Domain.{
  EventSeatInventory, InventoryStatus, Order, OrderItem, OrderStatus, Payment, PaymentProvider,
  PaymentStatus,
}
use ticketing_backend.Sql.{count_where}
use ticketing_backend.Store.Action.{Db, World, Env}
use ticketing_backend.Store.Inventory.{Table}
use ticketing_backend.SeatInventory.Keys.{IsKeyed}

abbrev pub free_unit : EventSeatInventory
free_unit = record {
  id = 7;
  tenant_id = 1;
  event_id = 3;
  event_ticket_category_id = 4;
  seat_id = some 9;
  status = InventoryStatus.available;
  hold_token = none;
  held_by_user_id = none;
  hold_expires_at = none;
}

abbrev pub held_unit : EventSeatInventory
held_unit = record {
  id = 8;
  tenant_id = 1;
  event_id = 3;
  event_ticket_category_id = 4;
  seat_id = some 10;
  status = InventoryStatus.held;
  hold_token = some 50;
  held_by_user_id = some 20;
  hold_expires_at = some 1000;
}

abbrev pub sold_unit : EventSeatInventory
sold_unit = record {
  id = 9;
  tenant_id = 1;
  event_id = 3;
  event_ticket_category_id = 4;
  seat_id = none;
  status = InventoryStatus.sold;
  hold_token = none;
  held_by_user_id = none;
  hold_expires_at = none;
}

abbrev pub units : Table
units = free_unit ∷ held_unit ∷ sold_unit ∷ []

-- The hold of the order's unit was swept.
abbrev pub swept_units : Table
swept_units = free_unit ∷ sold_unit ∷ []

pub units-IsKeyed : IsKeyed units
unfolding count_where
units-IsKeyed id = ground arith

pub swept_units-IsKeyed : IsKeyed swept_units
unfolding count_where
swept_units-IsKeyed id = ground arith

abbrev pub price : Money
price = record { cents = 500; currency = "KES" }

abbrev pub no_fee : Money
no_fee = record { cents = 0; currency = "KES" }

abbrev pub category : EventTicketCategory
category = record {
  id = 4;
  tenant_id = 1;
  event_id = 3;
  seat_category_id = 5;
  price = price;
  max_per_order = 4;
}

abbrev pub order : Order
order = record {
  id = 30;
  tenant_id = 1;
  user_id = 20;
  status = OrderStatus.pending;
  idempotency_key = "first";
  subtotal = price;
  fees = no_fee;
  total = price;
  expires_at = some 1000;
  created_at = 60;
}

abbrev pub order_item : OrderItem
order_item = record {
  id = 31;
  tenant_id = 1;
  order_id = 30;
  event_seat_inventory_id = 8;
  hold_token = 50;
  unit_price = price;
  created_at = 60;
}

abbrev pub payment : Payment
payment = record {
  id = 40;
  tenant_id = 1;
  order_id = 30;
  provider = PaymentProvider.stripe;
  provider_payment_id = "pi_1";
  status = PaymentStatus.pending;
  amount = price;
  idempotency_key = "first";
  raw_response = none;
}

abbrev pub fan : User
fan = record {
  id = 20;
  email = "fan@example.org";
  phone = "";
  password_hash = "hash of secret-word";
  first_name = "A";
  last_name = "Fan";
  status = UserStatus.active;
  role = UserRole.fan;
  tenant_id = none;
  email_verified_at = none;
  created_at = 10;
}

abbrev pub session : RefreshToken
session = record {
  id = 80;
  user_id = 20;
  token_hash = "hash of raw";
  user_agent = "browser";
  ip_address = "";
  expires_at = 5000;
  revoked_at = none;
  created_at = 20;
}

abbrev pub tables : Db
tables = record {
  inventory = units;
  orders = order ∷ [];
  order_items = order_item ∷ [];
  payments = payment ∷ [];
  notifications = [];
  users = fan ∷ [];
  refresh_tokens = session ∷ [];
  tenants = [];
  events = [];
  ticket_categories = category ∷ [];
  seat_categories = [];
  venues = [];
  venue_sections = [];
  seats = [];
}

abbrev pub swept_tables : Db
swept_tables = record tables { inventory = swept_units }

abbrev pub unpaid_tables : Db
unpaid_tables = record tables { payments = [] }

abbrev pub world_of : Db → World
world_of db = record { db = db; tick = 0; gateway_calls = []; emails = [] }

-- Nothing fails, and each identifier is new.
abbrev pub calm_env : Env
calm_env = record {
  fails = λ n. false;
  clock = λ n. 100 + n;
  new_uuid = λ n. 200 + n;
  create_intent = λ n amount key metadata. some ("pi_2", "secret");
  refund = λ n id amount. some "re_1";
  send = λ n message. true;
  precedes = λ s t. false;
}

abbrev pub down_env : Env
down_env = record calm_env { fails = λ n. true }
