-- ===== src/Auth/Roles/Tests/Edits.antt =====
-- Edits of the roles, one that locks everybody out among them, and a role that comes and goes.
use article.Prelude.{◌≡◌, refl, true, none, some, [], ◌∷◌, ok, codes, arith, trim, ◌↔◌, all}
use article.Store.Memory.{count_from, update, delete, update_many}
use article.Auth.Account.{UserRole, Db}
use article.Auth.Permissions.{
  permission_definition, critical_permissions, reader, admin, moderator, is_known_permission,
  tier_allows, permission_definition,
}
use article.Auth.Roles.{
  RoleInput, validate_permissions, unique, unique_from, sorted, insert_sorted, set_tier,
  delete_role, update_role, edited_role, remove_role, assert_protected_role_keeps_control, List,
  String,
}
use article.Auth.Roles.Tiers.{IsConsistent, update_role-IsConsistent, create_role-IsConsistent}
use article.Auth.Roles.Edits.{update_role-last_manager}
use article.Auth.Roles.Validation.{validate_permissions_iff}
use article.Auth.Roles.Managers.{HasManager}
use article.Auth.Roles.Tests.{
  R, U, account, administrators, before, checking, consistent, created, desk, readers,
  with_checkers,
}

abbrev promoted : Db U R
promoted = record {
  users =
      some (account 0 admin)
      ∷ some (account 0 admin)
      ∷ some (account 1 reader)
      ∷ some (set_tier moderator (account 2 reader))
      ∷ [];
  roles =
      some administrators
      ∷ some readers
      ∷ some (edited_role checking moderator ("issue.verify" ∷ []) desk)
      ∷ [];
}

edited : update_role U R 2 checking before ≡ ok promoted
unfolding update_role validate_permissions unique unique_from sorted insert_sorted edited_role
    assert_protected_role_keeps_control is_known_permission tier_allows permission_definition update
    update_many trim
edited = refl

update_role-IsConsistent_example : IsConsistent U R promoted
update_role-IsConsistent_example =
    update_role-IsConsistent U R 2 checking before promoted consistent edited

abbrev renaming : RoleInput
renaming = record {
  key = codes "admin";
  name = codes "Owner";
  description = some (codes " Runs the site ");
  tier = admin;
  permissions = "role.manage" ∷ "user.manage" ∷ "user.manage" ∷ [];
}

abbrev owners : UserRole
owners = edited_role renaming admin ("role.manage" ∷ "user.manage" ∷ []) administrators

abbrev renamed : Db U R
renamed = record before { roles = some owners ∷ some readers ∷ some desk ∷ [] }

owned : update_role U R 0 renaming before ≡ ok renamed
unfolding update_role trim validate_permissions unique unique_from is_known_permission
    permission_definition tier_allows assert_protected_role_keeps_control critical_permissions
    sorted insert_sorted update
owned = refl

-- A site whose one manager is on a role that was made for it.
abbrev managers : UserRole
managers = record desk { tier = admin; permissions = "user.manage" ∷ [] }

abbrev one_manager : Db U R
one_manager = record {
  users = some (account 1 admin) ∷ some (account 0 reader) ∷ [];
  roles = some readers ∷ some managers ∷ [];
}

abbrev locked_out : Db U R
locked_out = record {
  users = some (set_tier moderator (account 1 admin)) ∷ some (account 0 reader) ∷ [];
  roles = some readers ∷ some (edited_role checking moderator ("issue.verify" ∷ []) managers) ∷ [];
}

locks_out : update_role U R 1 checking one_manager ≡ ok locked_out
unfolding update_role trim validate_permissions unique unique_from is_known_permission
    permission_definition tier_allows assert_protected_role_keeps_control update_many update sorted
    insert_sorted
locks_out = refl

update_role-last_manager_example : ¬ HasManager U R locked_out
update_role-last_manager_example =
    update_role-last_manager U R 1 checking one_manager locked_out (λ i u f m. ground arith) refl
      locks_out

with_checkers-IsConsistent : IsConsistent U R with_checkers
with_checkers-IsConsistent =
    create_role-IsConsistent U R checking 3 before with_checkers (λ i u f. ground arith) consistent
      created

with_checkers-HasManager : HasManager U R with_checkers
with_checkers-HasManager = record { id = 0; user = account 0 admin; found = refl; manages = refl }

validate_permissions_iff_example :
    ((ps : List String) × (validate_permissions moderator ("issue.verify" ∷ "comment.moderate" ∷ [])
        ≡ ok ps))
    ↔ (all (tier_allows moderator) ("issue.verify" ∷ "comment.moderate" ∷ []) ≡ true)
validate_permissions_iff_example =
    validate_permissions_iff moderator ("issue.verify" ∷ "comment.moderate" ∷ [])

abbrev without_checkers : Db U R
without_checkers = record before {
  roles = some administrators ∷ some readers ∷ some desk ∷ none ∷ [];
}

deleted : delete_role U R 3 with_checkers ≡ ok without_checkers
unfolding delete_role remove_role count_from delete update_many
deleted = refl
