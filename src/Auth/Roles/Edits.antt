-- ===== src/Auth/Roles/Edits.antt =====
-- Edits of a role, and the accounts that can manage people (`updateRole` of src/lib/auth/roleService.ts).
use article.Prelude.{
  ℕ, ◌≡◌, refl, sym, ◌∙◌, inl, inr, ◌⊎◌, String, true, false, Option, none, some, arith,
  if◌then◌else◌, includes, ok, Bool-cases, Option-cases, ◌==◌, all-includes,
}
use article.Store.{Table}
use article.Store.Rows.{update-found}
use article.Auth.Account.{User, UserRole, Db}
use article.Auth.Permissions.{Tier, critical_permissions}
use article.Auth.Permissions.Catalogue.{critical_permissions_lem}
use article.Auth.Roles.{RoleInput, update_role, set_tier, edited_role, can_manage, granted, holds}
use article.Auth.Roles.Lookups.{Updated, update_role-Updated, kept_tier, retag, find-Updated}
use article.Auth.Roles.Validation.{validate_permissions-ok, assert_protected-ok}
use article.Auth.Roles.Managers.{HasManager}

user_manage_critical : includes critical_permissions "user.manage" ≡ true
user_manage_critical = rw critical_permissions_lem

module _ (U : Table User) (R : Table UserRole) where
  -- The tier of an account does not decide whether it can manage people.
  set_tier-can_manage :
      (roles : R.Rows) (t : Tier) (u : User)
      → can_manage U R roles (set_tier t u) ≡ can_manage U R roles u
  set_tier-can_manage roles t u = refl

  module _ {k : ℕ} {input : RoleInput} {db db' : Db U R} (c : Updated U R k input db db') where
    -- What an edited account was.
    before :
        (i : ℕ) (u : User)
        → U.find i db'.users ≡ some u
        → (v : User) × (U.find i db.users ≡ some v)
          × (v.role_id ≡ u.role_id)
          × (can_manage U R db.roles u ≡ can_manage U R db.roles v)
    before i u f = elim (Option-cases (U.find i db.users)) [
      | inl gone ↦ absurd (ground (arith, find-Updated U R c i))
      | inr (v, g) ↦
          (v, g, ground (arith, find-Updated U R c i), ground (arith, find-Updated U R c i))
    ]

    after :
        (i : ℕ) (u : User)
        → U.find i db.users ≡ some u
        → (v : User) × (U.find i db'.users ≡ some v)
          × (v.role_id ≡ u.role_id)
          × (can_manage U R db'.roles u ≡ can_manage U R db'.roles v)
    after i u f = (
      retag k (kept_tier input c.role) c.role.tier u,
      rw (find-Updated U R c i, f),
      ground arith,
      ground arith,
    )

    named : (key : String) → includes c.permissions key ≡ includes input.permissions key
    named =
        (validate_permissions-ok (kept_tier input c.role) input.permissions c.permissions c.valid).1

    -- The roles after the edit.
    edited :
        R.find k db'.roles ≡ some (edited_role input (kept_tier input c.role) c.permissions c.role)
    edited = rw c.roles (
        ground (
          arith,
          update-found R k k (edited_role input (kept_tier input c.role) c.permissions) db.roles
              c.role c.found,
        ))

    others : (j : ℕ) → (k == j) ≡ false → R.find j db'.roles ≡ R.find j db.roles
    others j e = rw c.roles (
        ground (
          arith,
          R.find-update j k (edited_role input (kept_tier input c.role) c.permissions) db.roles,
        ))

    -- What a role set of an account grants after the edit.
    granted-Updated :
        (key : String) (o : Option ℕ)
        → granted U R db'.roles key o
          ≡ (if holds k o then includes input.permissions key else granted U R db.roles key o)
    unfolding edited_role
    granted-Updated key none = refl
    granted-Updated key (some j) = elim (Bool-cases (j == k)) [
      | inl same ↦ let e : j ≡ k = ground arith in rw (e, edited) (ground (arith, named key))
      | inr other ↦ rw other (ground (arith, others j))
    ]

  protected_keeps :
      {k : ℕ} {input : RoleInput} {db db' : Db U R} (c : Updated U R k input db db')
      → c.role.is_protected ≡ true
      → includes input.permissions "user.manage" ≡ true
  protected_keeps {input = input} c p =
      sym (named c "user.manage")
      ∙ all-includes (includes c.permissions) critical_permissions "user.manage"
          (assert_protected-ok c.permissions (rw p at c.control)) user_manage_critical

  -- If some account can manage people, one still can after an edit of a role that is protected, or
  -- of any role if its new permissions include `user.manage`.
  pub update_role-HasManager :
      (k : ℕ) (input : RoleInput) (db db' : Db U R) (role : UserRole)
      → HasManager U R db
      → R.find k db.roles ≡ some role
      → (role.is_protected ≡ true) ⊎ (includes input.permissions "user.manage" ≡ true)
      → update_role U R k input db ≡ ok db'
      → HasManager U R db'
  update_role-HasManager k input db db' role m f p h =
      let c = update_role-Updated U R k input db db' h in
      let same : c.role ≡ role = ground (arith, c.found) in
      let keeps : includes input.permissions "user.manage" ≡ true = elim p [
        | inl y ↦ protected_keeps c (rw same y)
        | inr y ↦ y
      ] in
      let (v, g, r, e) = after c m.id m.user m.found in
      record {
        id = m.id;
        user = v;
        found = g;
        manages =
            sym e
            ∙ ground (arith, granted-Updated c "user.manage" m.user.role_id, m.manages, keeps);
      }

  -- If every account that can manage people is on one role, and an edit of that role that succeeds
  -- leaves `user.manage` out, then nobody can manage people afterwards.
  pub update_role-last_manager :
      (k : ℕ) (input : RoleInput) (db db' : Db U R)
      → ((i : ℕ) (u : User)
          → U.find i db.users ≡ some u
          → can_manage U R db.roles u ≡ true
          → u.role_id ≡ some k)
      → includes input.permissions "user.manage" ≡ false
      → update_role U R k input db ≡ ok db'
      → ¬ HasManager U R db'
  update_role-last_manager k input db db' only drops h m =
      let c = update_role-Updated U R k input db db' h in
      let (v, g, r, e) = before c m.id m.user m.found in
      ground (
        arith,
        only m.id v g,
        r,
        e,
        granted-Updated c "user.manage" m.user.role_id,
        m.manages,
        drops,
      )
