-- ===== src/Auth/Account.antt =====
-- The tables of accounts and roles (prisma/schema.prisma, as src/lib/auth uses them).
use article.Prelude.{ℕ, String, Text, Bool, true, false, Option, List, ◌&&◌, not}
use article.Store.{Table}
use article.Auth.Permissions.{Tier}

pub data UserStatus : Type 0 where
  active suspended banned : UserStatus

-- The columns that the rules on roles, sign-in and the people page read or write. A date that is only
-- ever set or cleared is a flag.
pub record User : Type 0 where
  pub email : Text
  pub handle : Text
  pub name : Text
  pub role_id : Option ℕ
  pub district_id : Option ℕ
  pub role : Tier
  pub status : UserStatus
  pub anonymised : Bool
  pub email_verified : Bool
  pub must_change_password : Bool
  pub mfa_enabled : Bool
  pub mfa_secret : Option Text
  pub mfa_recovery_codes : Option Text
  pub session_version : ℕ

-- A role with its grants, the rows of RolePermission that name it.
pub record UserRole : Type 0 where
  pub key : Text
  pub name : Text
  pub description : Option Text
  pub tier : Tier
  pub is_system : Bool
  pub is_protected : Bool
  pub permissions : List String

abbrev pub is_active : UserStatus → Bool
is_active active = true
is_active _ = false

-- `where: { status: "ACTIVE", anonymisedAt: null }`
abbrev pub is_live : User → Bool
is_live u = is_active u.status && not u.anonymised

pub record Db (U : Table User) (R : Table UserRole) : Type 0 where
  pub users : U.Rows
  pub roles : R.Rows
