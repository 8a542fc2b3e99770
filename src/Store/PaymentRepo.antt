-- ===== src/Store/PaymentRepo.antt =====
-- internal/repository/postgres/payment.go: the table payments. An empty provider_payment_id is
-- stored as NULL and read back as empty.
use ticketing_backend.Prelude.{
  ℕ, String, Bool, true, false, ◌&&◌, ◌||◌, Option, none, some, [], ◌∷◌, ◌++◌, ◌==◌, if◌then◌else◌,
  str_eq,
}
use ticketing_backend.Domain.Amounts.{is_negative}
use ticketing_backend.Domain.{Error, Result, ok, err, Payment, PaymentProvider, PaymentStatus}
use ticketing_backend.Sql.{update_where, count_where, select_first}
use ticketing_backend.Store.OrderRepo.{is_order}
use ticketing_backend.Store.Action.{Db, Action, ◌>>=◌, exec, with_id, or_not_found}

abbrev pub is_payment : ℕ → ℕ → Payment → Bool
is_payment tenant_id id p = p.id == id && p.tenant_id == tenant_id

abbrev pub has_key : ℕ → String → Payment → Bool
has_key tenant_id key p = p.tenant_id == tenant_id && str_eq p.idempotency_key key

abbrev same_provider : PaymentProvider → PaymentProvider → Bool
same_provider PaymentProvider.stripe PaymentProvider.stripe = true
same_provider PaymentProvider.adyen PaymentProvider.adyen = true
same_provider _ _ = false

-- UNIQUE (provider, provider_payment_id), from which NULL is exempt
abbrev same_intent : Payment → Payment → Bool
same_intent new p =
    if str_eq new.provider_payment_id ""
    then false
    else same_provider p.provider new.provider
      && str_eq p.provider_payment_id new.provider_payment_id

abbrev pub payment_collides : Payment → Payment → Bool
payment_collides new p =
    p.id == new.id || has_key new.tenant_id new.idempotency_key p || same_intent new p

unfoldable pub insert_payment : Payment → Db → Result (Unit {0}) × Db
insert_payment new db =
    if is_negative new.amount.cents
    then (err Error.other, db)
    else if count_where (payment_collides new) db.payments == 0
    then (if count_where (is_order new.tenant_id new.order_id) db.orders == 0
        then (err Error.other, db)
        else (ok tt, record db { payments = db.payments ++ new ∷ [] }))
    else (err Error.conflict, db)

unfoldable pub create : Payment → Action (Unit {0})
unfolding insert_payment
create p = do id ← with_id p.id; exec (insert_payment (record p { id = id }))

unfoldable pub get_by_id : ℕ → ℕ → Action Payment
get_by_id tenant_id id =
    exec λ db. (or_not_found (select_first (is_payment tenant_id id) db.payments), db)

unfoldable pub get_by_idempotency_key : ℕ → String → Action Payment
get_by_idempotency_key tenant_id key =
    exec λ db. (or_not_found (select_first (has_key tenant_id key) db.payments), db)

-- COALESCE(new, old): an empty or absent argument keeps the stored value.
abbrev coalesce : Option String → Option String → Option String
coalesce none old = old
coalesce (some s) old = some s

abbrev pub set_status : PaymentStatus → String → Option String → Payment → Payment
set_status status provider_payment_id raw_response p = record p {
  status = status;
  provider_payment_id =
      if str_eq provider_payment_id "" then p.provider_payment_id else provider_payment_id;
  raw_response = coalesce raw_response p.raw_response;
}

unfoldable pub update_status : ℕ → ℕ → PaymentStatus → String → Option String → Action (Unit {0})
update_status tenant_id id status provider_payment_id raw_response = exec λ db. (
  if count_where (is_payment tenant_id id) db.payments == 0 then err Error.not_found else ok tt,
  record db {
    payments =
        update_where (is_payment tenant_id id) (set_status status provider_payment_id raw_response)
          db.payments;
  },
)
