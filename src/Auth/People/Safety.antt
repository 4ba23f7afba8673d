-- ===== src/Auth/People/Safety.antt =====
-- The active administrators and the managers, through `setUserStatus` of the people page.
use article.Prelude.{
  ℕ, ◌≡◌, refl, inl, inr, ◌⊎◌, String, true, false, not, ◌&&◌, Option, none, some, arith,
  if◌then◌else◌, ok, Bool-cases, Option-cases, ◌==◌,
}
use article.Store.{Table}
use article.Store.Rows.{update-found, found-update}
use article.Auth.Account.{User, UserRole, Db, UserStatus, is_active, suspended}
use article.Auth.Rbac.{SessionUser, succeeded, require_role, guard_action}
use article.Auth.People.{
  World, is_active_admin, would_remove_last_admin, set_user_status, parse_status, same_status,
  with_status,
}
use article.Auth.Roles.{can_manage}
use article.Auth.Roles.Managers.{HasManager}

module _ (U : Table User) (R : Table UserRole) where
  -- An account that is active and has the administrator tier.
  pub record HasAdmin (db : Db U R) : Type 0 where
    pub id : ℕ
    pub user : User
    pub found : U.find id db.users ≡ some user
    pub admin : is_active_admin user ≡ true

  -- A change of status that answers ok: the account had that status, or it has been given it by an
  -- administrator other than its holder, and was not the last active administrator if it lost it.
  record StatusChanged (auth : Option SessionUser) (user_id : ℕ) (text : String) (w w' : World U R)
      : Type 0 where
    session : SessionUser
    status : UserStatus
    given : parse_status text ≡ some status
    target : User
    signed_in : auth ≡ some session
    other : (user_id == session.id) ≡ false
    there : U.find user_id w.db.users ≡ some target
    allowed : (is_active status ≡ true) ⊎ (would_remove_last_admin U R user_id w.db ≡ false)
    users : w'.db.users ≡ U.update user_id (with_status status) w.db.users
    roles : w'.db.roles ≡ w.db.roles

  set_user_status_cases :
      (auth : Option SessionUser) (user_id : ℕ) (status : String) (w w' : World U R)
      → set_user_status U R auth user_id status w ≡ ok (succeeded w')
      → ((w' ≡ w)
          × ((t : User) (s : UserStatus)
              → U.find user_id w.db.users ≡ some t
              → parse_status status ≡ some s
              → same_status t.status s ≡ true))
        ⊎ StatusChanged auth user_id status w w'
  unfolding set_user_status require_role guard_action
  set_user_status_cases none user_id status w w' h = absurd (ground arith)
  set_user_status_cases (some session) user_id status w w' h =
      elim (Option-cases (parse_status status)) [
        | inl bad ↦ absurd (ground arith)
        | inr (s, e) ↦ elim (Option-cases (U.find user_id w.db.users)) [
          | inl gone ↦ absurd (ground arith)
          | inr (t, f) ↦ elim (Bool-cases (same_status t.status s)) [
            | inl same ↦ inl (ground arith, λ t' s' f' e'. ground arith)
            | inr differs ↦ inr (record {
              session = session;
              status = s;
              given = e;
              target = t;
              signed_in = refl;
              other = ground arith;
              there = f;
              allowed = ground arith;
              users = ground arith;
              roles = ground arith;
            })
          ]
        ]
      ]

  -- An active administrator stays one where nothing is taken away, and another one stays where it is.
  other_admin :
      (user_id : ℕ) (s : UserStatus) (db db' : Db U R)
      → db'.users ≡ U.update user_id (with_status s) db.users
      → (i : ℕ) (u : User) → U.find i db.users ≡ some u
      → is_active_admin u ≡ true
      → ((is_active s ≡ true) ⊎ ((i == user_id) ≡ false))
      → HasAdmin db'
  other_admin user_id s db db' e i u f a k = record {
    id = i;
    user = if user_id == i then with_status s u else u;
    found = rw e (update-found U i user_id (with_status s) db.users u f);
    admin = ground (arith, k);
  }

  -- If some active account has the administrator tier, one still does after a change of status that
  -- answers ok.
  pub set_user_status-HasAdmin :
      (auth : Option SessionUser) (user_id : ℕ) (status : String) (w w' : World U R)
      → HasAdmin w.db
      → set_user_status U R auth user_id status w ≡ ok (succeeded w')
      → HasAdmin w'.db
  unfolding would_remove_last_admin
  set_user_status-HasAdmin auth user_id status w w' m h =
      elim (set_user_status_cases auth user_id status w w' h) [
        | inl same ↦ rw same.0 m
        | inr c ↦ elim c.allowed [
          | inl kept ↦
              other_admin user_id c.status w.db w'.db c.users m.id m.user m.found m.admin (inl kept)
          | inr spare ↦ elim (Bool-cases (m.id == user_id)) [
            | inl same ↦
                let e : m.id ≡ user_id = ground arith in
                let there : U.find user_id w.db.users ≡ some m.user = rw (← e) m.found in
                let (i, u, f, q) =
                  U.count-pos (λ i u. is_active_admin u && not (i == user_id)) w.db.users
                    (ground (arith, there, m.admin, spare)) in
                other_admin user_id c.status w.db w'.db c.users i u f (ground (arith, q))
                  (inr (ground (arith, q)))
            | inr other ↦
                other_admin user_id c.status w.db w'.db c.users m.id m.user m.found m.admin
                  (inr other)
          ]
        ]
      ]

  -- If only one account can manage people, nobody can after a suspension of that account that
  -- answers ok.
  pub set_user_status-last_manager :
      (auth : Option SessionUser) (user_id : ℕ) (w w' : World U R)
      → ((i : ℕ) (u : User)
          → U.find i w.db.users ≡ some u
          → can_manage U R w.db.roles u ≡ true
          → i ≡ user_id)
      → set_user_status U R auth user_id "SUSPENDED" w ≡ ok (succeeded w')
      → ¬ HasManager U R w'.db
  set_user_status-last_manager auth user_id w w' only h m =
      elim (set_user_status_cases auth user_id "SUSPENDED" w w' h) [
        | inl (same, already) ↦
            let f : U.find m.id w.db.users ≡ some m.user = rw same at m.found in
            let g : can_manage U R w.db.roles m.user ≡ true = rw same at m.manages in
            ground (arith, only m.id m.user f g, already m.user suspended)
        | inr c ↦
            let (v, p, q) =
              found-update U m.id user_id (with_status c.status) w.db.users m.user
                (rw c.users at m.found) in
            let g : can_manage U R w.db.roles m.user ≡ true = rw c.roles at m.manages in
            ground (arith, only m.id v p, c.given)
      ]
