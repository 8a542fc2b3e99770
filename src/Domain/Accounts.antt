-- ===== src/Domain/Accounts.antt =====
-- internal/domain/user.go and tenant.go: accounts, refresh tokens and tenants.
use ticketing_backend.Prelude.{ℕ, String, Bool, true, false, Option, none, some}

pub data UserStatus : Type 0 where
  active suspended deleted : UserStatus

pub data UserRole : Type 0 where
  fan admin : UserRole

abbrev pub is_active : UserStatus → Bool
is_active UserStatus.active = true
is_active _ = false

-- The empty phone and the empty password hash stand for NULL too, as scanUser reads it.
pub record User : Type 0 where
  pub id : ℕ
  pub email : String
  pub phone : String
  pub password_hash : String
  pub first_name : String
  pub last_name : String
  pub status : UserStatus
  pub role : UserRole
  pub tenant_id : Option ℕ
  pub email_verified_at : Option ℕ
  pub created_at : ℕ

pub record RefreshToken : Type 0 where
  pub id : ℕ
  pub user_id : ℕ
  pub token_hash : String
  pub user_agent : String
  pub ip_address : String
  pub expires_at : ℕ
  pub revoked_at : Option ℕ
  pub created_at : ℕ

-- The CHECK constraint users_role_tenant_consistency: an admin belongs to a tenant, a fan to none.
abbrev pub is_consistent : UserRole → Option ℕ → Bool
is_consistent UserRole.admin (some t) = true
is_consistent UserRole.admin none = false
is_consistent UserRole.fan none = true
is_consistent UserRole.fan (some t) = false

-- `unset` is the empty text, Go's zero value.
pub data TenantStatus : Type 0 where
  unset active suspended inactive : TenantStatus

-- The empty contact email stands for NULL too. The branding is its JSON, `none` for a nil map.
pub record Tenant : Type 0 where
  pub id : ℕ
  pub slug : String
  pub name : String
  pub sport : String
  pub status : TenantStatus
  pub contact_email : String
  pub branding : Option String

pub data MembershipStatus : Type 0 where
  active expired cancelled : MembershipStatus

-- A fan's standing with a tenant for one season. No repository stores it yet.
pub record Membership : Type 0 where
  pub id : ℕ
  pub tenant_id : ℕ
  pub user_id : ℕ
  pub tier : String
  pub season : String
  pub status : MembershipStatus
  pub starts_at : ℕ
  pub ends_at : ℕ
  pub created_at : ℕ
  pub updated_at : ℕ
