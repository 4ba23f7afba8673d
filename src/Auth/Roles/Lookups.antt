-- ===== src/Auth/Roles/Lookups.antt =====
-- What a successful call has found in the tables, and what it has written.
use article.Prelude.{
  ℕ, ◌≡◌, inl, inr, String, some, List, arith, if◌then◌else◌, ok, Option-cases, Result-cases, Text,
  map, trim, ◌⊎◌, ◌<◌, to_lower, ◌≢◌, Bool-cases, refl, ◌∙◌,
}
use mathlib.Core.Option
use article.Store.{Table}
use article.Auth.Permissions.{Tier}
use article.Auth.Account.{User, UserRole, Db}
use article.Auth.Roles.{
  RoleInput, validate_permissions, assert_protected_role_keeps_control, update_role, edited_role,
  in_role, set_tier, same_tier, create_role, delete_role, assign_role, new_role, false, remove_role,
  assert_not_last_administrator, none, includes, true, other_managers, put_on, Option,
}

-- The tier that an edited role gets.
abbrev pub kept_tier : RoleInput → UserRole → Tier
kept_tier input role = if role.is_system then role.tier else input.tier

-- What an edit does to an account: the holders of the role get its tier, if that changed.
abbrev pub retag : ℕ → Tier → Tier → User → User
retag k t old u = if same_tier t old then u else if in_role k u then set_tier t u else u

retag_same :
    (k : ℕ) (t old : Tier) (o : Option User)
    → same_tier t old ≡ true
    → o ≡ Option.map (retag k t old) o
retag_same k t old none h = refl
retag_same k t old (some u) h = rw h

retag_changed :
    (k : ℕ) (t old : Tier) (o : Option User)
    → same_tier t old ≡ false
    → Option.map (λ u. if in_role k u then set_tier t u else u) o ≡ Option.map (retag k t old) o
retag_changed k t old none h = refl
retag_changed k t old (some u) h = rw h

module _ (U : Table User) (R : Table UserRole) where
  pub record Updated (k : ℕ) (input : RoleInput) (db db' : Db U R) : Type 0 where
    pub role : UserRole
    pub permissions : List String
    pub found : R.find k db.roles ≡ some role
    pub valid : validate_permissions (kept_tier input role) input.permissions ≡ ok permissions
    pub control : assert_protected_role_keeps_control role.is_protected permissions ≡ ok tt
    pub roles :
        db'.roles ≡ R.update k (edited_role input (kept_tier input role) permissions) db.roles
    pub users : db'.users ≡ (
        if same_tier (kept_tier input role) role.tier
        then db.users
        else U.update_many (in_role k) (set_tier (kept_tier input role)) db.users)

  pub update_role-Updated :
      (k : ℕ) (input : RoleInput) (db db' : Db U R)
      → update_role U R k input db ≡ ok db'
      → Updated k input db db'
  unfolding update_role
  update_role-Updated k input db db' h = elim (Option-cases (R.find k db.roles)) [
    | inl gone ↦ absurd (ground arith)
    | inr (role, found) ↦
        elim (Result-cases (validate_permissions (kept_tier input role) input.permissions)) [
          | inl (permissions, valid) ↦ record {
            role = role;
            permissions = permissions;
            found = found;
            valid = valid;
            control = ground arith;
            roles = ground arith;
            users = ground arith;
          }
          | inr (e, refused) ↦ absurd (ground arith)
        ]
  ]

  pub record Created (input : RoleInput) (id : ℕ) (db db' : Db U R) : Type 0 where
    pub key : Text
    pub permissions : List String
    pub valid : validate_permissions input.tier input.permissions ≡ ok permissions
    pub roles : db'.roles ≡ R.put id (new_role input key permissions) db.roles
    pub users : db'.users ≡ db.users

  pub create_role-Created :
      (input : RoleInput) (id : ℕ) (db db' : Db U R)
      → create_role U R input id db ≡ ok db'
      → Created input id db db'
  unfolding create_role
  create_role-Created input id db db' h =
      elim (Result-cases (validate_permissions input.tier input.permissions)) [
        | inl (permissions, valid) ↦ record {
          key = map to_lower (trim input.key);
          permissions = permissions;
          valid = valid;
          roles = ground arith;
          users = ground arith;
        }
        | inr (e, refused) ↦ absurd (ground arith)
      ]

  -- A deletion that succeeds found no role, or removed one that is not built in and that nobody held.
  pub delete_role_cases :
      (k : ℕ) (db db' : Db U R)
      → delete_role U R k db ≡ ok db'
      → (db' ≡ db)
        ⊎ ((role : UserRole) × (R.find k db.roles ≡ some role)
            × (role.is_system ≡ false)
            × (U.count (λ _ u. in_role k u) db.users ≡ 0)
            × (db'.roles ≡ R.delete k db.roles)
            × (db'.users ≡ U.update_many (in_role k) (λ u. record u { role_id = none }) db.users))
  unfolding delete_role remove_role
  delete_role_cases k db db' h = elim (Option-cases (R.find k db.roles)) [
    | inl gone ↦ inl (ground arith)
    | inr (role, found) ↦ inr (role, found, ground arith, ground arith, ground arith, ground arith)
  ]

  pub record Assigned (user_id k actor_id : ℕ) (db db' : Db U R) : Type 0 where
    pub user : User
    pub role : UserRole
    pub other : user_id ≢ actor_id
    pub found : U.find user_id db.users ≡ some user
    pub kept : user.anonymised ≡ false
    pub role_found : R.find k db.roles ≡ some role
    pub safe :
        (includes role.permissions "user.manage" ≡ true) ⊎ (0 < other_managers U R user_id db)
    pub roles : db'.roles ≡ db.roles
    pub users : db'.users ≡ U.update user_id (put_on k role.tier) db.users

  pub assign_role-Assigned :
      (user_id k actor_id : ℕ) (db db' : Db U R)
      → assign_role U R user_id k actor_id db ≡ ok db'
      → Assigned user_id k actor_id db db'
  unfolding assign_role assert_not_last_administrator
  assign_role-Assigned user_id k actor_id db db' h = elim (Option-cases (U.find user_id db.users)) [
    | inl gone ↦ absurd (ground arith)
    | inr (user, found) ↦ elim (Option-cases (R.find k db.roles)) [
      | inl gone ↦ absurd (ground arith)
      | inr (role, role_found) ↦ record {
        user = user;
        role = role;
        other = ground arith;
        found = found;
        kept = ground arith;
        role_found = role_found;
        safe = ground arith;
        roles = ground arith;
        users = ground arith;
      }
    ]
  ]

  -- Every account after an edit, by the account before it.
  pub find-Updated :
      {k : ℕ} {input : RoleInput} {db db' : Db U R} (c : Updated k input db db') (i : ℕ)
      → U.find i db'.users
        ≡ Option.map (retag k (kept_tier input c.role) c.role.tier) (U.find i db.users)
  find-Updated {k} {input} {db} c i =
      elim (Bool-cases (same_tier (kept_tier input c.role) c.role.tier)) [
        | inl same ↦ rw (c.users, same) (retag_same k _ _ (U.find i db.users) same)
        | inr changed ↦
            rw (c.users, changed)
              (U.find-update_many i _ _ db.users ∙ retag_changed k _ _ (U.find i db.users) changed)
      ]
