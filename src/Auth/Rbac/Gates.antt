-- ===== src/Auth/Rbac/Gates.antt =====
-- The gates of src/lib/auth/rbac.ts.
use article.Prelude.{
  ◌≤◌, ◌≡◌, ◌↔◌, String, true, Option, some, List, arith, any, includes, Result, ok, err,
}
use article.Auth.Permissions.{Tier, tier_rank}
use article.Auth.Rbac.{
  SessionUser, Thrown, fault, Answer, require_role, require_verified_email, require_permission,
  require_verified_permission, guard_action,
}

-- The verified gate opens exactly for a session at the tier or above with a confirmed address.
pub require_verified_email_iff :
    (t : Tier) (session : Option SessionUser) (user : SessionUser)
    → (require_verified_email t session ≡ ok user) ↔ (
        (session ≡ some user) × (tier_rank t ≤ tier_rank user.role) × (user.email_confirmed ≡ true))
unfolding require_verified_email require_role
require_verified_email_iff t session user = ground arith

-- The verified permission gate lets a session through exactly if it holds one of the permissions
-- asked for and has a confirmed address.
pub require_verified_permission_iff :
    (ps : List String) (session : Option SessionUser) (user : SessionUser)
    → (require_verified_permission ps session ≡ ok user) ↔ (
        (session ≡ some user)
        × (any (λ p. includes user.permissions p) ps ≡ true)
        × (user.email_confirmed ≡ true))
unfolding require_verified_permission require_permission
require_verified_permission_iff ps session user = ground arith

-- A guarded action throws exactly the faults of its body: no auth failure leaves it as an error.
pub guard_action-err_iff {ℓ κ} :
    {E : Type ℓ} {A : Type κ} (run : Result Thrown (Answer E A)) (e : Thrown)
    → (guard_action run ≡ err e) ↔ ((run ≡ err e) × (e ≡ fault))
unfolding guard_action
guard_action-err_iff (ok a) e = ground arith
guard_action-err_iff (err x) e = ground arith
