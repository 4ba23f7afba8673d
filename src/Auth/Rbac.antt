-- ===== src/Auth/Rbac.antt =====
-- src/lib/auth/rbac.ts: the gates at the top of every action. The session is what `auth()` returned.
pub mod Gates
use article.Prelude.{
  ℕ, String, Bool, true, false, not, Option, none, some, List, ltb, any, includes, Result, ok, err,
  ◌>>=◌, ◌>>◌, guard, or_fail,
}
use article.Auth.Permissions.{Tier, tier_rank}

pub record SessionUser : Type 0 where
  pub id : ℕ
  pub role : Tier
  pub email_confirmed : Bool
  pub permissions : List String
  pub mfa_enabled : Bool
  pub mfa_uses_app : Bool
  pub must_change_password : Bool

-- UnauthorizedError, ForbiddenError with each of its messages, and any other error.
pub data Thrown : Type 0 where
  unauthorized not_authorized verify_first no_permission not_yours fault : Thrown

unfoldable pub require_user : Option SessionUser → Result Thrown SessionUser
require_user session = or_fail session unauthorized

unfoldable pub require_role : Tier → Option SessionUser → Result Thrown SessionUser
require_role min_role session = do
  user ← or_fail session unauthorized
  guard (not (ltb (tier_rank user.role) (tier_rank min_role))) not_authorized
  ok user

unfoldable pub require_verified_email : Tier → Option SessionUser → Result Thrown SessionUser
require_verified_email min_role session = do
  user ← require_role min_role session
  guard user.email_confirmed verify_first
  ok user

abbrev held_by : Option SessionUser → String → Bool
held_by none key = false
held_by (some user) key = includes user.permissions key

unfoldable pub session_has : Option SessionUser → String → Bool
session_has session permission = held_by session permission

-- Any one of the permissions is enough.
unfoldable pub require_permission : List String → Option SessionUser → Result Thrown SessionUser
require_permission permissions session = do
  user ← or_fail session unauthorized
  guard (any (λ p. includes user.permissions p) permissions) no_permission
  ok user

pub require_verified_permission : List String → Option SessionUser → Result Thrown SessionUser
require_verified_permission permissions session = do
  user ← require_permission permissions session
  guard user.email_confirmed verify_first
  ok user

-- What an action answers: `{ ok: true }` with its value, or `{ ok: false, error }`.
pub data Answer {ℓ κ} (E : Type ℓ) (A : Type κ) : Type (ℓ ⊔ κ) where
  succeeded : A → Answer E A
  sign_in_first : Answer E A
  forbidden : Thrown → Answer E A
  failed : E → Answer E A

-- An auth failure becomes an answer; any other error is thrown on.
unfoldable pub guard_action {ℓ κ} :
    {E : Type ℓ} {A : Type κ} → Result Thrown (Answer E A) → Result Thrown (Answer E A)
guard_action (ok a) = ok a
guard_action (err unauthorized) = ok sign_in_first
guard_action (err not_authorized) = ok (forbidden not_authorized)
guard_action (err verify_first) = ok (forbidden verify_first)
guard_action (err no_permission) = ok (forbidden no_permission)
guard_action (err not_yours) = ok (forbidden not_yours)
guard_action (err fault) = err fault
