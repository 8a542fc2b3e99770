-- ===== src/Http/Staff.antt =====
-- The endpoints of the staff, and whose rows they can change.
use ticketing_backend.Prelude.{
  ℕ, ◌≡◌, ◌⊎◌, inl, inr, refl, ap, ◌∙◌, arith, String, true, Option, none, some, Option-cases,
  Bool-cases, str_eq,
}
use ticketing_backend.Domain.{ok}
use ticketing_backend.Store.Action.{World, Env, next}
use ticketing_backend.Auth.{Externals, JwtConfig, Claims, parse_access_token}
use ticketing_backend.Http.{Reply, Handler, fault, reply}
use ticketing_backend.Http.Gate.{Headers, Context, bearer_token, tenant_id_from_context}
use ticketing_backend.Http.Routes.{protected_admin}
use ticketing_backend.Http.Admin.{
  AdminChecks, CreateSeatCategoryRequest, CreateEventRequest, CreateTicketCategoryRequest,
  PublishEventRequest, CreateVenueRequest, create_seat_category, create_event,
  create_ticket_category, publish_event, create_venue, list_venues,
}
use ticketing_backend.Http.Isolation.{without_tenant, Keeps}
use ticketing_backend.Http.StaffHandlers.{
  create_seat_category-Keeps, create_event-Keeps, create_ticket_category-Keeps, publish_event-Keeps,
  create_venue-Keeps, list_venues-Keeps,
}

-- A request to one of the routes of the admins' group: what its path and its body say.
pub data AdminRequest : Type 0 where
  post_seat_category : Option CreateSeatCategoryRequest → AdminRequest
  post_event : Option CreateEventRequest → AdminRequest
  post_ticket_category : String → Option CreateTicketCategoryRequest → AdminRequest
  post_publish : String → Option PublishEventRequest → AdminRequest
  post_venue : Option CreateVenueRequest → AdminRequest
  get_venues : AdminRequest

abbrev status_of : {B : Type 0} → Reply B → Reply (Unit {0})
status_of (fault code type) = fault code type
status_of (reply code b) = reply code tt

-- The handler, with a reply whose data is left out.
abbrev pub silent : {B : Type 0} → Handler World B → Handler World (Unit {0})
silent h env w = let (r, w') = h env w in (status_of r, w')

module _ (ext : Externals) (checks : AdminChecks) where
  -- The handler of the route.
  unfoldable pub serve : AdminRequest → Context → Handler World (Unit {0})
  serve (AdminRequest.post_seat_category body) ctx =
      silent (create_seat_category ext checks body ctx)
  serve (AdminRequest.post_event body) ctx = silent (create_event ext checks body ctx)
  serve (AdminRequest.post_ticket_category id body) ctx =
      silent (create_ticket_category ext checks id body ctx)
  serve (AdminRequest.post_publish id body) ctx = silent (publish_event ext checks id body ctx)
  serve (AdminRequest.post_venue body) ctx = silent (create_venue ext checks body ctx)
  serve AdminRequest.get_venues ctx = silent (list_venues ext checks ctx)

  -- The handler of the route leaves the other tenants' rows alone.
  serve-Keeps :
      (t : ℕ) (request : AdminRequest) (ctx : Context)
      → tenant_id_from_context ext ctx ≡ some t
      → Keeps t (serve request ctx)
  unfolding serve
  serve-Keeps t (AdminRequest.post_seat_category body) ctx h =
      create_seat_category-Keeps ext checks t body ctx h
  serve-Keeps t (AdminRequest.post_event body) ctx h = create_event-Keeps ext checks t body ctx h
  serve-Keeps t (AdminRequest.post_ticket_category id body) ctx h =
      create_ticket_category-Keeps ext checks t id body ctx h
  serve-Keeps t (AdminRequest.post_publish id body) ctx h =
      publish_event-Keeps ext checks t id body ctx h
  serve-Keeps t (AdminRequest.post_venue body) ctx h = create_venue-Keeps ext checks t body ctx h
  serve-Keeps t AdminRequest.get_venues ctx h = list_venues-Keeps ext checks t ctx h

  -- Without a tenant in the claims, a handler only replies.
  serve-idle :
      (request : AdminRequest) (ctx : Context) (env : Env) (w : World)
      → tenant_id_from_context ext ctx ≡ none
      → (serve request ctx env w).1 ≡ w
  unfolding serve create_seat_category create_event create_ticket_category publish_event
      create_venue list_venues
  serve-idle (AdminRequest.post_seat_category body) ctx env w h = rw h refl
  serve-idle (AdminRequest.post_event body) ctx env w h = rw h refl
  serve-idle (AdminRequest.post_ticket_category id body) ctx env w h = rw h refl
  serve-idle (AdminRequest.post_publish id body) ctx env w h = rw h refl
  serve-idle (AdminRequest.post_venue body) ctx env w h = rw h refl
  serve-idle AdminRequest.get_venues ctx env w h = rw h refl

  -- The request bears an access token that is accepted now, of an admin of the tenant.
  abbrev pub IsStaff : JwtConfig → Headers → Env → World → ℕ → Type 0
  IsStaff jwt headers env w t =
      (token : String) × (claims : Claims) × (bearer_token headers.authorization ≡ some token)
      × ((parse_access_token ext jwt token env w).0 ≡ ok claims)
      × (str_eq claims.role "admin" ≡ true)
      × (tenant_id_from_context ext (record { claims = some claims; resolved_tenant = none })
          ≡ some t)

  -- A request to a route of the admins' group, with its middleware, either changes no table, or
  -- it bore an access token that was accepted, with the role admin and a tenant. Then, whatever
  -- fails, it changed no rows but that tenant's: the units, events, ticket categories, seat
  -- categories and venues of the other tenants, and every other table, are as they were.
  pub other_tenants_kept :
      (jwt : JwtConfig) (headers : Headers) (request : AdminRequest) (env : Env) (w : World)
      → let after =
          (protected_admin ext (parse_access_token ext jwt) headers (serve request) env w).1.db in
        (after ≡ w.db)
        ⊎ ((t : ℕ) × IsStaff jwt headers env w t × (without_tenant t after ≡ without_tenant t w.db))
  unfolding protected_admin parse_access_token
  other_tenants_kept jwt headers request env w =
      elim (Option-cases (bearer_token headers.authorization)) [
        | inl no_token ↦ inl (ground arith)
        | inr (token, bears) ↦
            elim (Option-cases (ext.parse_with_claims jwt.secret (env.clock w.tick) token)) [
              | inl invalid ↦ inl (ground arith)
              | inr ((claims, valid), parsed) ↦ elim (Bool-cases valid) [
                | inr invalid ↦ inl (ground arith)
                | inl good ↦ elim (Bool-cases (str_eq claims.role "admin")) [
                  | inr fan ↦ inl (ground arith)
                  | inl admin ↦
                      let ctx : Context = record { claims = some claims; resolved_tenant = none } in
                      let same : protected_admin ext (parse_access_token ext jwt) headers
                            (serve request) env w
                          ≡ serve request ctx env (next w) =
                        ground arith in
                      elim (Option-cases (tenant_id_from_context ext ctx)) [
                        | inl nowhere ↦ inl (
                            ap (λ done. done.1.db) same
                            ∙ ap (λ v. v.db) (serve-idle request ctx env (next w) nowhere))
                        | inr (t, tenant) ↦ inr (
                          t,
                          (token, claims, bears, ground arith, admin, tenant),
                          ap (λ done. without_tenant t done.1.db) same
                              ∙ serve-Keeps t request ctx tenant env (next w),
                        )
                      ]
                ]
              ]
            ]
      ]
