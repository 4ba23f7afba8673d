-- ===== src/Auth/Roles/Managers.antt =====
-- The accounts that can manage people, through the writes of src/lib/auth/roleService.ts.
use article.Prelude.{
  ℕ, ◌≡◌, refl, inl, inr, String, true, false, Option, none, some, arith, if◌then◌else◌, includes,
  ok, Option-cases, ◌==◌, not, ◌&&◌,
}
use article.Store.{Table}
use article.Store.Rows.{update-found, update_many-found}
use article.Auth.Account.{User, UserRole, Db}
use article.Auth.Roles.{
  RoleInput, in_role, delete_role, assign_role, put_on, create_role, other_managers, can_manage,
  granted, new_role,
}
use article.Auth.Roles.Lookups.{assign_role-Assigned, delete_role_cases, create_role-Created}

module _ (U : Table User) (R : Table UserRole) where
  -- An account that is active, not erased, and on a role that grants `user.manage`.
  pub record HasManager (db : Db U R) : Type 0 where
    pub id : ℕ
    pub user : User
    pub found : U.find id db.users ≡ some user
    pub manages : can_manage U R db.roles user ≡ true

  put_on-manages :
      (roles : R.Rows) (k : ℕ) (role : UserRole) (u : User)
      → R.find k roles ≡ some role
      → includes role.permissions "user.manage" ≡ true
      → can_manage U R roles u ≡ true
      → can_manage U R roles (put_on k role.tier u) ≡ true
  put_on-manages roles k role u f g h = ground arith

  -- If some account that is active and not erased is on a role that grants `user.manage`, there
  -- still is one after any account is moved onto any role.
  pub assign_role-HasManager :
      (user_id k actor_id : ℕ) (db db' : Db U R)
      → HasManager db
      → assign_role U R user_id k actor_id db ≡ ok db'
      → HasManager db'
  unfolding other_managers
  assign_role-HasManager user_id k actor_id db db' m h =
      let a = assign_role-Assigned U R user_id k actor_id db db' h in
      elim a.safe [
        | inl grants ↦ record {
          id = m.id;
          user = if user_id == m.id then put_on k a.role.tier m.user else m.user;
          found = rw a.users (update-found U m.id user_id _ db.users m.user m.found);
          manages = rw a.roles (
              ground (
                arith,
                put_on-manages db.roles k a.role m.user a.role_found grants m.manages,
                m.manages,
              ));
        }
        | inr others ↦
            let (i, u, f, q) =
              U.count-pos (λ i u. not (i == user_id) && can_manage U R db.roles u) db.users
                others in
            record {
              id = i;
              user = u;
              found =
                  rw a.users
                    (ground (arith, update-found U i user_id (put_on k a.role.tier) db.users u f));
              manages = rw a.roles (ground (arith, q));
            }
      ]

  -- A role that stays as it was grants what it granted.
  granted_mono :
      (roles roles' : R.Rows) (key : String) (o : Option ℕ)
      → ((j : ℕ) (r : UserRole) → o ≡ some j → R.find j roles ≡ some r → R.find j roles' ≡ some r)
      → granted U R roles key o ≡ true
      → granted U R roles' key o ≡ true
  granted_mono roles roles' key none keep h = h
  granted_mono roles roles' key (some j) keep h = elim (Option-cases (R.find j roles)) [
    | inl gone ↦ absurd (ground arith)
    | inr (r, f) ↦ let e = keep j r refl f in rw e (rw f at h)
  ]

  -- If some account can manage people, one still can after a role is created under an identifier
  -- that is not taken.
  pub create_role-HasManager :
      (input : RoleInput) (id : ℕ) (db db' : Db U R)
      → R.find id db.roles ≡ none
      → HasManager db
      → create_role U R input id db ≡ ok db'
      → HasManager db'
  create_role-HasManager input id db db' fresh m h =
      let c = create_role-Created U R input id db db' h in
      let kept =
        granted_mono db.roles (R.put id (new_role input c.key c.permissions) db.roles) "user.manage"
          m.user.role_id
          (λ j r _ f.
            ground (arith, R.find-put j id (new_role input c.key c.permissions) db.roles)) in
      record {
        id = m.id;
        user = m.user;
        found = rw c.users m.found;
        manages = rw c.roles (ground (arith, kept, m.manages));
      }

  -- If some account can manage people, one still can after any role is deleted.
  pub delete_role-HasManager :
      (k : ℕ) (db db' : Db U R) → HasManager db → delete_role U R k db ≡ ok db' → HasManager db'
  delete_role-HasManager k db db' m h = elim (delete_role_cases U R k db db' h) [
    | inl same ↦ rw same m
    | inr (role, found, _, unheld, roles, users) ↦
        let away : in_role k m.user ≡ false =
          ground (arith, U.count-found (λ _ u. in_role k u) db.users m.id m.user m.found, unheld) in
        let kept =
          granted_mono db.roles (R.delete k db.roles) "user.manage" m.user.role_id
            (λ j r e f. ground (arith, R.find-delete j k db.roles)) in
        record {
          id = m.id;
          user = m.user;
          found = rw users (
              ground (
                arith,
                update_many-found U m.id (in_role k) (λ u. record u { role_id = none }) db.users
                    m.user m.found,
              ));
          manages = rw roles (ground (arith, kept, m.manages));
        }
  ]
