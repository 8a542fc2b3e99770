-- ===== src/Store/TenantRepo.antt =====
-- internal/repository/postgres/tenant.go: the table tenants.
use ticketing_backend.Prelude.{
  ℕ, String, Bool, true, false, ◌||◌, Option, none, some, List, [], ◌∷◌, ◌++◌, ◌==◌, if◌then◌else◌,
  str_eq, take, drop,
}
use ticketing_backend.Domain.{Error, Result, ok, err}
use ticketing_backend.Domain.Accounts.{Tenant, TenantStatus}
use ticketing_backend.Sql.{count_where, select_first, select_where, update_where, sort_by}
use ticketing_backend.Store.Action.{Db, Action, ◌>>=◌, exec, or_not_found, with_id}

abbrev pub is_tenant : ℕ → Tenant → Bool
is_tenant id t = t.id == id

abbrev pub has_slug : String → Tenant → Bool
has_slug slug t = str_eq t.slug slug

-- The PRIMARY KEY, and UNIQUE (slug)
abbrev pub tenant_collides : Tenant → Tenant → Bool
tenant_collides new t = t.id == new.id || has_slug new.slug t

abbrev pub is_set : TenantStatus → Bool
is_set TenantStatus.unset = false
is_set _ = true

abbrev pub same_tenant_status : TenantStatus → TenantStatus → Bool
same_tenant_status TenantStatus.unset TenantStatus.unset = true
same_tenant_status TenantStatus.active TenantStatus.active = true
same_tenant_status TenantStatus.suspended TenantStatus.suspended = true
same_tenant_status TenantStatus.inactive TenantStatus.inactive = true
same_tenant_status _ _ = false

abbrev branding_or_empty : Option String → Option String
branding_or_empty none = some "{}"
branding_or_empty (some json) = some json

-- The defaults that Create fills in.
abbrev pub with_defaults : Tenant → Tenant
with_defaults t = record t {
  status = if is_set t.status then t.status else TenantStatus.active;
  sport = if str_eq t.sport "" then "football" else t.sport;
  branding = branding_or_empty t.branding;
}

unfoldable pub insert_tenant : Tenant → Db → Result (Unit {0}) × Db
insert_tenant new db =
    if count_where (tenant_collides new) db.tenants == 0
    then (ok tt, record db { tenants = db.tenants ++ new ∷ [] })
    else (err Error.conflict, db)

unfoldable pub create : Tenant → Action (Unit {0})
unfolding insert_tenant
create t = do id ← with_id t.id; exec (insert_tenant (with_defaults (record t { id = id })))

unfoldable pub get_by_id : ℕ → Action Tenant
get_by_id id = exec λ db. (or_not_found (select_first (is_tenant id) db.tenants), db)

unfoldable pub get_by_slug : String → Action Tenant
get_by_slug slug = exec λ db. (or_not_found (select_first (has_slug slug) db.tenants), db)

-- The columns that the UPDATE names: not the slug.
abbrev pub set_tenant : Tenant → Tenant → Tenant
set_tenant new t = record t {
  name = new.name;
  sport = new.sport;
  status = new.status;
  contact_email = new.contact_email;
  branding = new.branding;
}

-- The CHECK on the status is only tested where there is a row to change.
unfoldable pub update_tenant : Tenant → Db → Result (Unit {0}) × Db
update_tenant new db =
    if count_where (is_tenant new.id) db.tenants == 0
    then (err Error.not_found, db)
    else if is_set new.status
    then (
      ok tt,
      record db { tenants = update_where (is_tenant new.id) (set_tenant new) db.tenants },
    )
    else (err Error.other, db)

unfoldable pub update : Tenant → Action (Unit {0})
unfolding update_tenant
update t = exec (update_tenant t)

-- List; the order of the names is the database's.
unfoldable pub list : TenantStatus → ℕ → ℕ → Action (List Tenant)
list status limit offset env =
    exec
      (λ db. (
        ok (
            take limit (
              drop offset (
                sort_by (λ s t. env.precedes s.name t.name)
                  (select_where (λ t. same_tenant_status t.status status) db.tenants)))),
        db,
      ))
      env
