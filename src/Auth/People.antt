-- ===== src/Auth/People.antt =====
-- src/app/(dashboard)/dashboard/users/actions.ts: what an administrator does to other accounts.
pub mod Safety
pub mod Tests
use article.Prelude.{
  ℕ, ◌+◌, String, Bool, true, false, not, ◌&&◌, ◌||◌, Option, none, some, List, [], ◌∷◌, ◌==◌,
  if◌then◌else◌, Result, ok, err, ◌>>=◌, str_eq,
}
use article.Store.{Table}
use article.Audit.{AuditEntry, record_audit}
use article.Auth.Permissions.{Tier, reader, moderator, admin}
use article.Auth.Account.{User, UserRole, Db, UserStatus, active, suspended, banned, is_active}
use article.Auth.Rbac.{
  SessionUser, Thrown, Answer, succeeded, failed, require_role, require_permission, guard_action,
}
use article.Auth.Roles.{RoleRuleError, assign_role}

pub data PeopleError : Type 0 where
  account_gone not_a_role own_mfa mfa_off bad_status own_status last_admin : PeopleError
  rule : RoleRuleError → PeopleError

pub record World (U : Table User) (R : Table UserRole) : Type 0 where
  pub db : Db U R
  pub audit : List AuditEntry

abbrev pub person_entry : ℕ → String → ℕ → AuditEntry
person_entry actor action target = record {
  actor_id = actor;
  action = action;
  target_type = "User";
  target_id = target;
}

abbrev pub is_admin : Tier → Bool
is_admin admin = true
is_admin _ = false

abbrev pub parse_status : String → Option UserStatus
parse_status s =
    if str_eq s "ACTIVE"
    then some active
    else if str_eq s "SUSPENDED"
    then some suspended
    else if str_eq s "BANNED"
    then some banned
    else none

abbrev pub same_status : UserStatus → UserStatus → Bool
same_status active active = true
same_status suspended suspended = true
same_status banned banned = true
same_status _ _ = false

abbrev pub is_active_admin : User → Bool
is_active_admin u = is_admin u.role && is_active u.status

-- Nothing is needed of somebody who is not an active administrator.
abbrev counts_as_admin : Option User → Bool
counts_as_admin none = false
counts_as_admin (some u) = is_active_admin u

abbrev without_mfa : User → User
without_mfa u = record u {
  mfa_enabled = false;
  mfa_secret = none;
  mfa_recovery_codes = none;
  session_version = u.session_version + 1;
}

abbrev with_status : UserStatus → User → User
with_status s u = record u { status = s; session_version = u.session_version + 1 }

abbrev action_of : UserStatus → String
action_of s = if is_active s then "user.reinstate" else "user.suspend"

abbrev on_role : Option ℕ → ℕ → Bool
on_role none k = false
on_role (some j) k = j == k

module _ (U : Table User) (R : Table UserRole) where
  -- The answer of an action, with the world that a successful one leaves.
  abbrev pub Act : Type 0
  Act = Result Thrown (Answer PeopleError (World U R))

  abbrev reply : PeopleError → Act
  reply e = ok (failed e)

  abbrev done : World U R → Act
  done w = ok (succeeded w)

  pub would_remove_last_admin : ℕ → Db U R → Bool
  would_remove_last_admin user_id db =
      counts_as_admin (U.find user_id db.users)
      && U.count (λ i u. is_active_admin u && not (i == user_id)) db.users == 0

  -- A rule of `assign_role` that refuses becomes the answer.
  abbrev assigned : ℕ → ℕ → World U R → Result RoleRuleError (Db U R) → Act
  assigned actor user_id w (err e) = reply (rule e)
  assigned actor user_id w (ok db) = done (record {
    db = db;
    audit = record_audit (person_entry actor "user.role.change" user_id) w.audit;
  })

  move_to : SessionUser → ℕ → ℕ → User → Option UserRole → World U R → Act
  move_to session user_id role_id target none w = reply not_a_role
  move_to session user_id role_id target (some role) w =
      if on_role target.role_id role_id
      then done w
      else assigned session.id user_id w (assign_role U R user_id role_id session.id w.db)

  role_body : SessionUser → ℕ → ℕ → Option User → World U R → Act
  role_body session user_id role_id none w = reply account_gone
  role_body session user_id role_id (some target) w =
      move_to session user_id role_id target (R.find role_id w.db.roles) w

  pub set_user_role : Option SessionUser → ℕ → ℕ → World U R → Act
  unfolding move_to role_body
  set_user_role auth user_id role_id w = guard_action do
    session ← require_permission ("user.manage" ∷ []) auth
    role_body session user_id role_id (U.find user_id w.db.users) w

  changed : SessionUser → String → ℕ → (User → User) → World U R → World U R
  changed session action user_id f w = record {
    db = record (w.db) { users = U.update user_id f w.db.users };
    audit = record_audit (person_entry session.id action user_id) w.audit;
  }

  mfa_body : SessionUser → ℕ → Option User → World U R → Act
  mfa_body session user_id none w = reply account_gone
  mfa_body session user_id (some target) w =
      if target.mfa_enabled
      then done (changed session "user.mfa.reset" user_id without_mfa w)
      else reply mfa_off

  pub reset_user_mfa : Option SessionUser → ℕ → World U R → Act
  unfolding changed mfa_body
  reset_user_mfa auth user_id w = guard_action do
    session ← require_role admin auth
    if user_id == session.id
        then reply own_mfa
        else mfa_body session user_id (U.find user_id w.db.users) w

  status_body : SessionUser → ℕ → UserStatus → Option User → World U R → Act
  status_body session user_id s none w = reply account_gone
  status_body session user_id s (some target) w =
      if same_status target.status s
      then done w
      else if not (is_active s) && would_remove_last_admin user_id w.db
      then reply last_admin
      else done (changed session (action_of s) user_id (with_status s) w)

  status_checked : SessionUser → ℕ → Option UserStatus → World U R → Act
  status_checked session user_id none w = reply bad_status
  status_checked session user_id (some s) w =
      if user_id == session.id
      then reply own_status
      else status_body session user_id s (U.find user_id w.db.users) w

  pub set_user_status : Option SessionUser → ℕ → String → World U R → Act
  unfolding changed status_body status_checked
  set_user_status auth user_id status w =
      guard_action
        do session ← require_role admin auth; status_checked session user_id (parse_status status) w
