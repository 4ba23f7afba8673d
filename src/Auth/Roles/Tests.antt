-- ===== src/Auth/Roles/Tests.antt =====
-- The role service on two administrators and a reader.
pub mod Edits
use article.Prelude.{
  subst, ◌⊎◌, inl, inr, ◌≡◌, refl, true, false, none, some, [], ◌∷◌, ok, codes, ℕ, arith,
  is_identifier, trim, to_lower, ◌↔◌, all,
}
use article.Store.{Table}
use article.Store.Memory.{memory, count_from, update, first_from, put, delete, update_many}
use article.Auth.Account.{User, UserRole, Db, active}
use article.Auth.Permissions.{
  permission_definition, critical_permissions, reader, admin, Tier, moderator, is_known_permission,
  tier_allows, permission_definition,
}
use article.Auth.Roles.{
  assign_role, other_managers, assert_not_last_administrator, put_on, create_role, RoleInput,
  validate_permissions, unique, unique_from, sorted, insert_sorted, new_role, set_tier, delete_role,
  update_role, edited_role, remove_role, assert_protected_role_keeps_control, List, String,
}
use article.Auth.Roles.Tiers.{
  IsConsistent, IsSound, delete_role-IsConsistent, update_role-IsConsistent,
  create_role-IsConsistent, assign_role-IsConsistent,
}
use article.Auth.Roles.Edits.{update_role-HasManager, update_role-last_manager}
use article.Auth.Roles.Validation.{validate_permissions_iff}
use article.Auth.Roles.Managers.{HasManager, assign_role-HasManager, delete_role-HasManager}

abbrev U : Table User
U = memory User

abbrev R : Table UserRole
R = memory UserRole

abbrev account : ℕ → Tier → User
account k tier = record {
  email = codes "a@example.org";
  handle = codes "a";
  name = codes "A";
  role_id = some k;
  district_id = none;
  role = tier;
  status = active;
  anonymised = false;
  email_verified = true;
  must_change_password = false;
  mfa_enabled = false;
  mfa_secret = none;
  mfa_recovery_codes = none;
  session_version = 0;
}

abbrev administrators : UserRole
administrators = record {
  key = codes "admin";
  name = codes "Administrator";
  description = none;
  tier = admin;
  is_system = true;
  is_protected = true;
  permissions = "user.manage" ∷ "role.manage" ∷ [];
}

abbrev readers : UserRole
readers = record {
  key = codes "reader";
  name = codes "Reader";
  description = none;
  tier = reader;
  is_system = true;
  is_protected = false;
  permissions = [];
}

abbrev desk : UserRole
desk = record {
  key = codes "desk";
  name = codes "Desk";
  description = none;
  tier = reader;
  is_system = false;
  is_protected = false;
  permissions = [];
}

abbrev before : Db U R
before = record {
  users =
      some (account 0 admin)
      ∷ some (account 0 admin)
      ∷ some (account 1 reader)
      ∷ some (account 2 reader)
      ∷ [];
  roles = some administrators ∷ some readers ∷ some desk ∷ [];
}

abbrev after : Db U R
after = record before {
  users =
      some (put_on 1 reader (account 0 admin))
      ∷ some (account 0 admin)
      ∷ some (account 1 reader)
      ∷ some (account 2 reader)
      ∷ [];
}

assigned : assign_role U R 0 1 1 before ≡ ok after
unfolding assign_role other_managers assert_not_last_administrator count_from update
assigned = refl

managed : HasManager U R before
managed = record { id = 0; user = account 0 admin; found = refl; manages = refl }

assign_role-HasManager_example : HasManager U R after
assign_role-HasManager_example = assign_role-HasManager U R 0 1 1 before after managed assigned

one_of_three :
    (k : ℕ) (r : UserRole)
    → R.find k before.roles ≡ some r
    → (administrators ≡ r) ⊎ (readers ≡ r) ⊎ (desk ≡ r)
one_of_three k r f = ground arith

administrators-IsSound : IsSound administrators
unfolding tier_allows permission_definition critical_permissions
administrators-IsSound = record { allowed = refl; control = λ _. refl }

readers-IsSound : IsSound readers
readers-IsSound = record { allowed = refl; control = λ h. ground arith }

desk-IsSound : IsSound desk
desk-IsSound = record { allowed = refl; control = λ h. ground arith }

consistent : IsConsistent U R before
consistent = record {
  tiers = λ i u k r f e g. ground arith;
  sound = λ k r f. elim (one_of_three k r f) [
    | inl e ↦ subst IsSound e administrators-IsSound
    | inr (inl e) ↦ subst IsSound e readers-IsSound
    | inr (inr e) ↦ subst IsSound e desk-IsSound
  ];
}

abbrev checking : RoleInput
checking = record {
  key = codes "checkers";
  name = codes " Checkers ";
  description = none;
  tier = moderator;
  permissions = "issue.verify" ∷ [];
}

abbrev checkers : UserRole
checkers = record {
  key = codes "checkers";
  name = codes "Checkers";
  description = none;
  tier = moderator;
  is_system = false;
  is_protected = false;
  permissions = "issue.verify" ∷ [];
}

created :
    create_role U R checking 3 before
    ≡ ok (record before {
      roles = some administrators ∷ some readers ∷ some desk ∷ some checkers ∷ [];
    })
unfolding create_role validate_permissions unique unique_from sorted insert_sorted new_role
    is_known_permission tier_allows permission_definition first_from put is_identifier trim to_lower
created = refl

abbrev with_checkers : Db U R
with_checkers = record before {
  roles = some administrators ∷ some readers ∷ some desk ∷ some checkers ∷ [];
}
