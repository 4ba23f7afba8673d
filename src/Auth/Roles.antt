-- ===== src/Auth/Roles.antt =====
-- src/lib/auth/roleService.ts: every write that touches a role, and the rules that it keeps. A call
-- that throws leaves the tables as they were.
pub mod Validation
pub mod Lookups
pub mod Managers
pub mod Edits
pub mod Tiers
pub mod Tests
use Prim.Native.Nat.{Ordering}
use Prim.Native.String.{compare}
use article.Prelude.{
  ℕ, ◌+◌, String, Bool, true, false, not, ◌&&◌, Option, none, some, List, [], ◌∷◌, ◌++◌, ltb, ◌==◌,
  if◌then◌else◌, includes, keep, Result, ok, err, ◌>>=◌, ◌>>◌, guard, or_fail, Text, trim,
  trimmed_or_null, is_empty, is_identifier, to_lower, text_eq, map,
}
use article.Store.{Table}
use article.Auth.Permissions.{
  Tier, reader, moderator, admin, tier_allows, is_known_permission, critical_permissions,
}
use article.Auth.Account.{User, UserRole, Db, is_live}

-- RoleRuleError, one constructor for each message.
pub data RoleRuleError : Type 0 where
  unknown_permission tier_too_low must_keep : List String → RoleRuleError
  bad_identifier no_name key_taken role_gone tier_fixed built_in : RoleRuleError
  still_held : ℕ → RoleRuleError
  own_role account_gone last_administrator : RoleRuleError

-- `[...new Set(requested)]`: the first of equal entries stays.
pub unique_from : List String → List String → List String
unique_from seen [] = []
unique_from seen (k ∷ ks) =
    let old = unique_from seen ks in
    let new = k ∷ unique_from (k ∷ seen) ks in if includes seen k then old else new

pub unique : List String → List String
unique ks = unique_from [] ks

pub insert_sorted : String → List String → List String
insert_sorted k [] = k ∷ []
insert_sorted k (j ∷ js) =
    let later = j ∷ insert_sorted k js in
    elim (compare j k) [ Ordering.gt ↦ k ∷ j ∷ js | _ ↦ later ]

-- `unique.sort()`
pub sorted : List String → List String
sorted [] = []
sorted (k ∷ ks) = insert_sorted k (sorted ks)

abbrev pub none_left : List String → (List String → RoleRuleError) → Result RoleRuleError (Unit {0})
none_left [] e = ok tt
none_left (k ∷ ks) e = err (e (k ∷ ks))

pub validate_permissions : Tier → List String → Result RoleRuleError (List String)
validate_permissions tier requested = do
  none_left (keep (λ k. not (is_known_permission k)) (unique requested)) unknown_permission
  none_left (keep (λ k. not (tier_allows tier k)) (unique requested)) tier_too_low
  ok (sorted (unique requested))

pub assert_protected_role_keeps_control : Bool → List String → Result RoleRuleError (Unit {0})
assert_protected_role_keeps_control false permissions = ok tt
assert_protected_role_keeps_control true permissions =
    none_left (keep (λ k. not (includes permissions k)) critical_permissions) must_keep

-- The input of the role form.
pub record RoleInput : Type 0 where
  pub key : Text
  pub name : Text
  pub description : Option Text
  pub tier : Tier
  pub permissions : List String

abbrev pub or_null : Option Text → Option Text
or_null none = none
or_null (some d) = trimmed_or_null d

abbrev pub has_name : Text → Bool
has_name name = not (is_empty (trim name))

abbrev pub holds : ℕ → Option ℕ → Bool
holds k none = false
holds k (some j) = j == k

abbrev pub in_role : ℕ → User → Bool
in_role k u = holds k u.role_id

abbrev pub same_tier : Tier → Tier → Bool
same_tier reader reader = true
same_tier moderator moderator = true
same_tier admin admin = true
same_tier _ _ = false

abbrev pub role_grants : String → Option UserRole → Bool
role_grants key none = false
role_grants key (some r) = includes r.permissions key

-- `updateMany({ where: { roleId }, data: { role: tier, sessionVersion: { increment: 1 } } })`
abbrev pub set_tier : Tier → User → User
set_tier tier u = record u { role = tier; session_version = u.session_version + 1 }

-- A row found under the same key.
abbrev pub none_found : Option (ℕ × UserRole) → Result RoleRuleError (Unit {0})
none_found none = ok tt
none_found (some clash) = err key_taken

pub new_role : RoleInput → Text → List String → UserRole
new_role input key permissions = record {
  key = key;
  name = trim input.name;
  description = or_null input.description;
  tier = input.tier;
  is_system = false;
  is_protected = false;
  permissions = permissions;
}

pub edited_role : RoleInput → Tier → List String → UserRole → UserRole
edited_role input tier permissions role = record role {
  name = trim input.name;
  description = or_null input.description;
  tier = tier;
  permissions = permissions;
}

-- The account that may be moved, or none: an erased one no longer exists.
abbrev pub present_account : Option User → Option User
present_account none = none
present_account (some u) = if u.anonymised then none else some u

abbrev pub put_on : ℕ → Tier → User → User
put_on k tier u = record u {
  role_id = some k;
  role = tier;
  session_version = u.session_version + 1;
}

module _ (U : Table User) (R : Table UserRole) where
  -- `userRole: { permissions: { some: { permission: key } } }`
  abbrev pub granted : R.Rows → String → Option ℕ → Bool
  granted roles key none = false
  granted roles key (some k) = role_grants key (R.find k roles)

  abbrev pub can_manage : R.Rows → User → Bool
  can_manage roles u = is_live u && granted roles "user.manage" u.role_id

  -- `id` is the identifier that the database makes up.
  pub create_role : RoleInput → ℕ → Db U R → Result RoleRuleError (Db U R)
  create_role input id db = do
    let key = map to_lower (trim input.key)
    guard (is_identifier key) bad_identifier
    guard (has_name input.name) no_name
    none_found (R.first (λ r. text_eq r.key key) db.roles)
    permissions ← validate_permissions input.tier input.permissions
    ok (record db { roles = R.put id (new_role input key permissions) db.roles })

  pub update_role : ℕ → RoleInput → Db U R → Result RoleRuleError (Db U R)
  update_role k input db = do
    role ← or_fail (R.find k db.roles) role_gone
    guard (has_name input.name) no_name
    let tier = if role.is_system then role.tier else input.tier
    guard (not (role.is_system && not (same_tier input.tier role.tier))) tier_fixed
    permissions ← validate_permissions tier input.permissions
    assert_protected_role_keeps_control role.is_protected permissions
    let roles = R.update k (edited_role input tier permissions) db.roles
    let synced = U.update_many (in_role k) (set_tier tier) db.users
    ok (record { users = if same_tier tier role.tier then db.users else synced; roles = roles })

  -- Accounts on a deleted role lose it: the relation is `onDelete: SetNull`.
  pub remove_role : ℕ → UserRole → Db U R → Result RoleRuleError (Db U R)
  remove_role k role db = do
    guard (not role.is_system) built_in
    let held = U.count (λ _ u. in_role k u) db.users
    guard (held == 0) (still_held held)
    ok (record {
      users = U.update_many (in_role k) (λ u. record u { role_id = none }) db.users;
      roles = R.delete k db.roles;
    })

  -- Deleting a role that is not there is no error.
  pub delete_role : ℕ → Db U R → Result RoleRuleError (Db U R)
  delete_role k db = elim (R.find k db.roles) [ none ↦ ok db | some role ↦ remove_role k role db ]

  -- The accounts other than this one that can manage people.
  pub other_managers : ℕ → Db U R → ℕ
  other_managers user_id db = U.count (λ i u. not (i == user_id) && can_manage db.roles u) db.users

  pub assert_not_last_administrator : ℕ → Db U R → Result RoleRuleError (Unit {0})
  assert_not_last_administrator user_id db =
      guard (not (other_managers user_id db == 0)) last_administrator

  pub assign_role : ℕ → ℕ → ℕ → Db U R → Result RoleRuleError (Db U R)
  assign_role user_id k actor_id db = do
    guard (not (user_id == actor_id)) own_role
    user ← or_fail (present_account (U.find user_id db.users)) account_gone
    role ← or_fail (R.find k db.roles) role_gone
    let check = assert_not_last_administrator user_id db
    if includes role.permissions "user.manage" then ok tt else check
    ok (record db { users = U.update user_id (put_on k role.tier) db.users })
