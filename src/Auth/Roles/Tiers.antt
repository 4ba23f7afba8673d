-- ===== src/Auth/Roles/Tiers.antt =====
-- The roles and the accounts that hold them, through the writes of src/lib/auth/roleService.ts.
use article.Prelude.{
  ℕ, ◌≡◌, inl, inr, true, false, none, some, arith, includes, ok, Bool-cases, Option-cases, ◌==◌,
  all,
}
use article.Store.{Table}
use article.Store.Rows.{found-update, found-put, found-delete, found-update_many}
use article.Auth.Account.{User, UserRole, Db}
use article.Auth.Permissions.{critical_permissions, tier_allows}
use article.Auth.Roles.{
  RoleInput, update_role, in_role, edited_role, create_role, new_role, delete_role, assign_role,
  put_on,
}
use article.Auth.Roles.Lookups.{
  Updated, update_role-Updated, kept_tier, find-Updated, create_role-Created, delete_role_cases,
  assign_role-Assigned,
}
use article.Auth.Roles.Validation.{validate_permissions-ok, assert_protected-ok}

-- A role holds only what its tier allows, and a protected one keeps what administers the site.
pub record IsSound (r : UserRole) : Type 0 where
  pub allowed : all (tier_allows r.tier) r.permissions ≡ true
  pub control : r.is_protected ≡ true → all (includes r.permissions) critical_permissions ≡ true

module _ (U : Table User) (R : Table UserRole) where
  -- `User.role` is the tier of the role that the account holds, and every role is sound.
  pub record IsConsistent (db : Db U R) : Type 0 where
    pub tiers :
        (i : ℕ) (u : User) (k : ℕ) (r : UserRole)
        → U.find i db.users ≡ some u
        → u.role_id ≡ some k
        → R.find k db.roles ≡ some r
        → u.role ≡ r.tier
    pub sound : (k : ℕ) (r : UserRole) → R.find k db.roles ≡ some r → IsSound r

  -- If every role is sound and the tier of every account is the tier of its role, both still hold
  -- after an account is moved onto a role.
  pub assign_role-IsConsistent :
      (user_id k actor_id : ℕ) (db db' : Db U R)
      → IsConsistent db
      → assign_role U R user_id k actor_id db ≡ ok db'
      → IsConsistent db'
  assign_role-IsConsistent user_id k actor_id db db' v h =
      let a = assign_role-Assigned U R user_id k actor_id db db' h in
      record {
        tiers = λ i u j r f e g.
            let (w, p, q) =
              found-update U i user_id (put_on k a.role.tier) db.users u (rw a.users at f) in
            let g' = rw a.roles at g in ground (arith, v.tiers i w j r, a.role_found);
        sound = λ j r g. v.sound j r (rw a.roles at g);
      }

  -- If every role is sound and the tier of every account is the tier of its role, both still hold
  -- after a role is created under an identifier that no account names.
  pub create_role-IsConsistent :
      (input : RoleInput) (id : ℕ) (db db' : Db U R)
      → ((i : ℕ) (u : User) → U.find i db.users ≡ some u → in_role id u ≡ false)
      → IsConsistent db
      → create_role U R input id db ≡ ok db'
      → IsConsistent db'
  unfolding new_role
  create_role-IsConsistent input id db db' fresh v h =
      let c = create_role-Created U R input id db db' h in
      record {
        tiers = λ i u j r f e g.
            let f' = rw c.users at f in
            elim (found-put R j id (new_role input c.key c.permissions) db.roles r
              (rw c.roles at g)) [
                | inl (same, _) ↦ absurd (ground (arith, fresh i u f'))
                | inr old ↦ v.tiers i u j r f' e old
              ];
        sound = λ j r g.
            elim (found-put R j id (new_role input c.key c.permissions) db.roles r
              (rw c.roles at g)) [
                | inl (_, same) ↦ rw same (record {
                  allowed =
                      (validate_permissions-ok input.tier input.permissions c.permissions
                        c.valid).0;
                  control = λ p. cc;
                })
                | inr old ↦ v.sound j r old
              ];
      }

  edited-IsSound :
      {k : ℕ} {input : RoleInput} {db db' : Db U R} (c : Updated U R k input db db')
      → IsSound (edited_role input (kept_tier input c.role) c.permissions c.role)
  unfolding edited_role
  edited-IsSound {input = input} c = record {
    allowed =
        (validate_permissions-ok (kept_tier input c.role) input.permissions c.permissions
          c.valid).0;
    control = λ p. assert_protected-ok c.permissions (rw p at c.control);
  }

  -- If every role is sound and the tier of every account is the tier of its role, both still hold
  -- after a role is edited, its tier included: its holders move with it.
  pub update_role-IsConsistent :
      (k : ℕ) (input : RoleInput) (db db' : Db U R)
      → IsConsistent db
      → update_role U R k input db ≡ ok db'
      → IsConsistent db'
  unfolding edited_role
  update_role-IsConsistent k input db db' v h =
      let c = update_role-Updated U R k input db db' h in
      record {
        tiers = λ i u j r f e g.
            let (s, p, q) =
              found-update R j k (edited_role input (kept_tier input c.role) c.permissions) db.roles
                r (rw c.roles at g) in
            elim (Option-cases (U.find i db.users)) [
              | inl gone ↦ absurd (ground (arith, find-Updated U R c i))
              | inr (w, there) ↦
                  ground (arith, find-Updated U R c i, v.tiers i w j s, c.found, p, q)
            ];
        sound = λ j r g.
            let (s, p, q) =
              found-update R j k (edited_role input (kept_tier input c.role) c.permissions) db.roles
                r (rw c.roles at g) in
            elim (Bool-cases (k == j)) [
              | inl same ↦
                  let e : r ≡ edited_role input (kept_tier input c.role) c.permissions c.role =
                    ground (arith, c.found, p, q) in
                  rw e (edited-IsSound c)
              | inr other ↦ v.sound j r (ground arith)
            ];
      }

  -- If every role is sound and the tier of every account is the tier of its role, both still hold
  -- after a role is deleted.
  pub delete_role-IsConsistent :
      (k : ℕ) (db db' : Db U R) → IsConsistent db → delete_role U R k db ≡ ok db' → IsConsistent db'
  delete_role-IsConsistent k db db' v h = elim (delete_role_cases U R k db db' h) [
    | inl same ↦ rw same v
    | inr (role, found, _, unheld, roles, users) ↦ record {
      tiers = λ i u j r f e g.
          let (w, p, q) =
            found-update_many U i (in_role k) (λ u. record u { role_id = none }) db.users u
              (rw users at f) in
          let (_, old) = found-delete R j k db.roles r (rw roles at g) in
          ground (arith, v.tiers i w j r);
      sound = λ j r g. v.sound j r (found-delete R j k db.roles r (rw roles at g)).1;
    }
  ]
