-- ===== src/Auth/Permissions/Catalogue.antt =====
-- The catalogue of src/lib/auth/permissions.ts.
use article.Prelude.{
  ◌≤◌, ◌≡◌, refl, sym, subst, String, true, some, [], ◌∷◌, arith, includes, eq_iff, ◌⊎◌, inl, inr,
}
use article.Auth.Permissions.{
  Tier, admin, tier_rank, tier_allows, is_known_permission, permission_definition,
  critical_permissions, PermissionDefinition,
}

-- A higher tier may hold whatever a lower one may.
pub tier_allows_mono :
    (t u : Tier) (key : String)
    → tier_rank t ≤ tier_rank u
    → tier_allows t key ≡ true
    → tier_allows u key ≡ true
unfolding tier_allows
tier_allows_mono t u key h = ground arith

-- An administrator may hold a key exactly when the catalogue knows it.
pub tier_allows-admin : (key : String) → tier_allows admin key ≡ is_known_permission key
unfolding tier_allows is_known_permission
tier_allows-admin key = ground arith

-- What no tier may hold is unknown, and what some tier may hold is known.
pub tier_allows-known :
    (t : Tier) (key : String) → tier_allows t key ≡ true → is_known_permission key ≡ true
unfolding tier_allows is_known_permission
tier_allows-known t key h = ground arith

pub critical_permissions_lem : critical_permissions ≡ "user.manage" ∷ "role.manage" ∷ []
unfolding critical_permissions
critical_permissions_lem = refl

critical_cases :
    (key : String)
    → includes critical_permissions key ≡ true
    → ("user.manage" ≡ key) ⊎ ("role.manage" ≡ key)
critical_cases key =
    subst (λ l. includes l key ≡ true → ("user.manage" ≡ key) ⊎ ("role.manage" ≡ key))
      (sym critical_permissions_lem)
      (ground (arith, eq_iff "user.manage" key, eq_iff "role.manage" key))

abbrev for_admins : String → PermissionDefinition
for_admins key = record { key = key; min_tier = admin; critical = true }

user_manage_lem : permission_definition "user.manage" ≡ some (for_admins "user.manage")
unfolding permission_definition
user_manage_lem = refl

role_manage_lem : permission_definition "role.manage" ≡ some (for_admins "role.manage")
unfolding permission_definition
role_manage_lem = refl

-- A tier that allows a permission that keeps the site administrable is the administrator tier.
pub tier_allows-critical :
    (t : Tier) (key : String)
    → includes critical_permissions key ≡ true
    → tier_allows t key ≡ true
    → t ≡ admin
unfolding tier_allows
tier_allows-critical t key c h = elim (critical_cases key c) [
  | inl e ↦ let k : tier_allows t "user.manage" ≡ true = rw e h in ground (arith, user_manage_lem)
  | inr e ↦ let k : tier_allows t "role.manage" ≡ true = rw e h in ground (arith, role_manage_lem)
]
