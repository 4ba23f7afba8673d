-- ===== src/Auth/People/Tests.antt =====
-- The people page, with two administrators of whom one manages people, and the gates before it.
use article.Prelude.{◌≡◌, refl, none, some, [], ◌∷◌, ok, ℕ, arith, includes}
use article.Store.{Table}
use article.Store.Memory.{memory, count_from, update}
use article.Auth.Account.{User, UserRole, suspended, active}
use article.Auth.Permissions.{admin, tier_allows, critical_permissions, permission_definition}
use article.Auth.Rbac.{SessionUser, succeeded, guard_action, require_role}
use article.Auth.Roles.Managers.{HasManager}
use article.Auth.People.{
  World, set_user_status, with_status, person_entry, List, String, false, true,
  would_remove_last_admin,
}
use article.Auth.People.Safety.{HasAdmin, set_user_status-HasAdmin, set_user_status-last_manager}
use article.Audit.{record_audit}

abbrev U : Table User
U = memory User

abbrev R : Table UserRole
R = memory UserRole

abbrev account : ℕ → User
account k = record {
  email = [];
  handle = [];
  name = [];
  role_id = some k;
  district_id = none;
  role = admin;
  status = active;
  anonymised = false;
  email_verified = true;
  must_change_password = false;
  mfa_enabled = false;
  mfa_secret = none;
  mfa_recovery_codes = none;
  session_version = 0;
}

abbrev role : List String → UserRole
role permissions = record {
  key = [];
  name = [];
  description = none;
  tier = admin;
  is_system = false;
  is_protected = false;
  permissions = permissions;
}

-- Account 0 manages people, account 1 is an administrator that may only edit the settings.
abbrev before : World U R
before = record {
  db = record {
    users = some (account 0) ∷ some (account 1) ∷ [];
    roles = some (role ("user.manage" ∷ [])) ∷ some (role ("settings.manage" ∷ [])) ∷ [];
  };
  audit = [];
}

abbrev after : World U R
after = record {
  db = record (before.db) {
    users = some (with_status suspended (account 0)) ∷ some (account 1) ∷ [];
  };
  audit = person_entry 1 "user.suspend" 0 ∷ [];
}

abbrev second : SessionUser
second = record {
  id = 1;
  role = admin;
  email_confirmed = true;
  permissions = "settings.manage" ∷ [];
  mfa_enabled = false;
  mfa_uses_app = false;
  must_change_password = false;
}

suspends : set_user_status U R (some second) 0 "SUSPENDED" before ≡ ok (succeeded after)
unfolding set_user_status guard_action require_role would_remove_last_admin count_from update
    record_audit
suspends = refl

set_user_status-HasAdmin_example : HasAdmin U R after.db
set_user_status-HasAdmin_example =
    set_user_status-HasAdmin U R (some second) 0 "SUSPENDED" before after
      (record { id = 0; user = account 0; found = refl; admin = refl }) suspends

set_user_status-last_manager_example : ¬ HasManager U R after.db
set_user_status-last_manager_example =
    set_user_status-last_manager U R (some second) 0 before after (λ i u f m. ground arith) suspends

allowed : tier_allows admin "role.manage" ≡ true
unfolding tier_allows permission_definition
allowed = refl

critical : includes critical_permissions "role.manage" ≡ true
unfolding critical_permissions
critical = refl
