-- ===== src/Http/Holds.antt =====
-- What the purchase path does to the seats.
use ticketing_backend.Prelude.{
  ℕ, ◌≡◌, ◌⊎◌, inl, inr, refl, subst, arith, String, Option, some, Option-cases, Bool-cases, str_eq,
}
use ticketing_backend.Domain.{Error, ok}
use ticketing_backend.Store.Action.{Db, World, Env, next, Result-cases}
use ticketing_backend.Redis.{Client, lift}
use ticketing_backend.Holding.{Config, HoldResult, hold_seat}
use ticketing_backend.Holding.HoldSeat.{IsTaken, Outcome, hold_seat_sound}
use ticketing_backend.SeatInventory.Keys.{IsKeyed}
use ticketing_backend.Auth.{Externals, JwtConfig, Claims, parse_access_token}
use ticketing_backend.Http.{Reply, fault, reply, Handler, Method}
use ticketing_backend.Http.Gate.{
  Headers, Context, user_id_from_context, resolved_tenant_id_from_context, bearer_token,
}
use ticketing_backend.Http.Routes.{purchase}
use ticketing_backend.Http.Seats.{HoldSeatRequest, hold_handler, hold_error}

-- The reply is an error, and no table has changed.
abbrev pub IsIdle : {W B : Type 0} → (W → Db) → Db → Reply B × W → Type 0
IsIdle db_of before done =
    ((code : ℕ) × (type : String) × (done.0 ≡ fault code type)) × (db_of done.1 ≡ before)

hold_error-fault :
    {W : Type 0} (e : Error) (env : Env) (w : W)
    → (code : ℕ) × (type : String) × (hold_error e env w ≡ (fault code type, w))
hold_error-fault Error.not_found env w = (500, "internal-error", refl)
hold_error-fault Error.conflict env w = (500, "internal-error", refl)
hold_error-fault Error.invalid_input env w = (500, "internal-error", refl)
hold_error-fault Error.unavailable env w = (409, "unavailable", refl)
hold_error-fault Error.expired env w = (500, "internal-error", refl)
hold_error-fault Error.not_admitted env w = (403, "not-admitted", refl)
hold_error-fault Error.rate_limited env w = (429, "rate-limited", refl)
hold_error-fault Error.lock_contention env w = (409, "unavailable", refl)
hold_error-fault Error.not_queued env w = (500, "internal-error", refl)
hold_error-fault Error.invalid_credentials env w = (500, "internal-error", refl)
hold_error-fault Error.weak_password env w = (500, "internal-error", refl)
hold_error-fault Error.refresh_expired env w = (500, "internal-error", refl)
hold_error-fault Error.refresh_revoked env w = (500, "internal-error", refl)
hold_error-fault Error.account_inactive env w = (500, "internal-error", refl)
hold_error-fault Error.other env w = (500, "internal-error", refl)

module _ (ext : Externals) {S : Type 0} (client : Client S) (cfg : Config) where
  abbrev pub db_of : S × World → Db
  db_of (s, w) = w.db

  -- The context's fan took the unit of the path in the context's tenant.
  abbrev pub IsHeld : Context → String → Db → Reply HoldResult × (S × World) → Type 0
  IsHeld ctx id before done =
      (user_id : ℕ) × (tenant_id : ℕ) × (inventory_id : ℕ) × (result : HoldResult)
      × (user_id_from_context ext ctx ≡ some user_id)
      × (resolved_tenant_id_from_context ctx ≡ some tenant_id)
      × (ext.parse_uuid id ≡ some inventory_id)
      × (done.0 ≡ reply 200 result)
      × IsTaken tenant_id inventory_id user_id before result (db_of done.1)

  hold_called :
      (ctx : Context) (id : String) (body : Option HoldSeatRequest) (req : HoldSeatRequest)
      (env : Env) (s : S) (w : World)
      → IsKeyed w.db.inventory
      → (u : ℕ) → user_id_from_context ext ctx ≡ some u
      → (t : ℕ) → resolved_tenant_id_from_context ctx ≡ some t
      → (i : ℕ) → ext.parse_uuid id ≡ some i
      → (e : ℕ) → body ≡ some req
      → ext.parse_uuid req.event_id ≡ some e
      → let done = hold_handler ext client cfg ctx id body env (s, w) in
        IsHeld ctx id w.db done ⊎ IsIdle db_of w.db done
  unfolding hold_handler
  hold_called ctx id body req env s w keyed u user t tenant i path e read event =
      let sound = hold_seat_sound client cfg t e i u env s w keyed in
      let called = hold_seat client cfg t e i u env (s, w) in
      elim (Result-cases called.0) [
        | inl (result, good) ↦
            let (row, found, free, table) : IsTaken t i u w.db result (db_of called.1) =
              subst (λ r. Outcome t i u w.db r (db_of called.1)) good sound in
            inl
              (u, t, i, result, user, tenant, path, ground arith, (row, found, free, ground arith))
        | inr (er, bad) ↦
            let kept = subst (λ r. Outcome t i u w.db r (db_of called.1)) bad sound in
            let (code, type, same) = hold_error-fault er env called.1 in
            inr ((code, type, ground arith), ground arith)
      ]

  hold_handler_sound :
      (ctx : Context) (id : String) (body : Option HoldSeatRequest) (env : Env) (s : S) (w : World)
      → IsKeyed w.db.inventory
      → let done = hold_handler ext client cfg ctx id body env (s, w) in
        IsHeld ctx id w.db done ⊎ IsIdle db_of w.db done
  unfolding hold_handler
  hold_handler_sound ctx id body env s w keyed =
      elim (Option-cases (user_id_from_context ext ctx)) [
        | inl nobody ↦ inr ((401, "missing-token", ground arith), ground arith)
        | inr (u, user) ↦ elim (Option-cases (resolved_tenant_id_from_context ctx)) [
          | inl nowhere ↦ inr ((400, "missing-tenant", ground arith), ground arith)
          | inr (t, tenant) ↦ elim (Option-cases (ext.parse_uuid id)) [
            | inl malformed ↦ inr ((400, "invalid-inventory-id", ground arith), ground arith)
            | inr (i, path) ↦ elim (Option-cases body) [
              | inl unread ↦ inr ((400, "invalid-body", ground arith), ground arith)
              | inr (req, read) ↦ elim (Option-cases (ext.parse_uuid req.event_id)) [
                | inl malformed ↦ inr ((400, "invalid-event-id", ground arith), ground arith)
                | inr (e, event) ↦
                    hold_called ctx id body req env s w keyed u user t tenant i path e read event
              ]
            ]
          ]
        ]
      ]

  module _ (jwt : JwtConfig) where
    abbrev pub parse : String → Method (S × World) Claims
    parse token = lift (parse_access_token ext jwt token)

    -- The request bears an access token that is accepted now, whose claims are in the context,
    -- and its tenant header is the context's tenant.
    abbrev pub IsLetIn : Headers → Env → World → Context → Type 0
    IsLetIn headers env w ctx =
        (token : String) × (claims : Claims) × (tenant_id : ℕ) × (bearer_token headers.authorization
          ≡ some token)
        × ((parse_access_token ext jwt token env w).0 ≡ ok claims)
        × (ext.parse_uuid headers.x_tenant_id ≡ some tenant_id)
        × (ctx ≡ record { claims = some claims; resolved_tenant = some tenant_id })

    let_in :
        {B : Type 0} (headers : Headers) (handler : Context → Handler (S × World) B) (env : Env)
        (s : S) (w : World)
        → let done = purchase ext parse headers handler env (s, w) in
          ((ctx : Context) × IsLetIn headers env w ctx × (done ≡ handler ctx env (s, next w)))
          ⊎ IsIdle db_of w.db done
    unfolding purchase parse_access_token
    let_in headers handler env s w = elim (Option-cases (bearer_token headers.authorization)) [
      | inl no_token ↦ inr ((401, "missing-token", ground arith), ground arith)
      | inr (token, bears) ↦
          elim (Option-cases (ext.parse_with_claims jwt.secret (env.clock w.tick) token)) [
            | inl invalid ↦ inr ((401, "invalid-token", ground arith), ground arith)
            | inr ((claims, valid), parsed) ↦ elim (Bool-cases valid) [
              | inr invalid ↦ inr ((401, "invalid-token", ground arith), ground arith)
              | inl good ↦ elim (Bool-cases (str_eq headers.x_tenant_id "")) [
                | inl absent ↦ inr ((400, "missing-tenant", ground arith), ground arith)
                | inr given ↦ elim (Option-cases (ext.parse_uuid headers.x_tenant_id)) [
                  | inl malformed ↦ inr ((400, "invalid-tenant", ground arith), ground arith)
                  | inr (t, tenant) ↦ inl (
                    record { claims = some claims; resolved_tenant = some t },
                    (token, claims, t, bears, ground arith, tenant, refl),
                    ground arith,
                  )
                ]
              ]
            ]
          ]
    ]

    -- POST /inventory/{id}/hold, with the middleware of its group. Either the reply is an error
    -- and no table has changed, or the reply is 200, the request bore an access token that was
    -- accepted, and the unit of the path, of the tenant in the header, was available and is now
    -- held by the token's subject, under the hold token and until the expiry of the reply.
    pub purchase_hold_sound :
        (headers : Headers) (id : String) (body : Option HoldSeatRequest) (env : Env) (s : S)
        (w : World)
        → IsKeyed w.db.inventory
        → let done =
            purchase ext parse headers
              (λ ctx. hold_handler ext client cfg ctx id body)
              env
              (s, w) in
          ((ctx : Context) × IsLetIn headers env w ctx × IsHeld ctx id w.db done)
          ⊎ IsIdle db_of w.db done
    purchase_hold_sound headers id body env s w keyed =
        elim (let_in headers (λ ctx. hold_handler ext client cfg ctx id body) env s w) [
          | inr idle ↦ inr idle
          | inl (ctx, entered, same) ↦
              rw same (elim (hold_handler_sound ctx id body env s (next w) keyed) [
                | inl held ↦ inl (ctx, entered, held)
                | inr idle ↦ inr idle
              ])
        ]
