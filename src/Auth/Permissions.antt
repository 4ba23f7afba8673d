-- ===== src/Auth/Permissions.antt =====
-- src/lib/auth/permissions.ts: the catalogue of permissions, the tiers and the seeded roles. Labels
-- and descriptions are text for a person and are left out.
pub mod Catalogue
use article.Prelude.{
  ℕ, ◌≤◌, ◌≡◌, String, Bool, true, false, Option, none, some, List, [], ◌∷◌, ◌++◌, map, arith, leb,
  if◌then◌else◌, str_eq, keep,
}

pub data Tier : Type 0 where
  reader moderator admin : Tier

pub record PermissionDefinition : Type 0 where
  pub key : String
  pub min_tier : Tier
  pub critical : Bool

pub record PermissionGroup : Type 0 where
  pub key : String
  pub permissions : List PermissionDefinition

abbrev grant : String → Tier → PermissionDefinition
grant key min_tier = record { key = key; min_tier = min_tier; critical = false }

abbrev critical_grant : String → Tier → PermissionDefinition
critical_grant key min_tier = record { key = key; min_tier = min_tier; critical = true }

abbrev workspace : PermissionGroup
workspace = record {
  key = "workspace";
  permissions = grant "dashboard.access" moderator ∷ grant "analytics.view" moderator ∷ [];
}

abbrev content : PermissionGroup
content = record {
  key = "content";
  permissions =
      grant "article.create" moderator
      ∷ grant "article.edit.own" moderator
      ∷ grant "article.edit.any" moderator
      ∷ grant "article.publish" moderator
      ∷ grant "article.delete" moderator
      ∷ grant "media.upload" moderator
      ∷ [];
}

abbrev community : PermissionGroup
community = record {
  key = "community";
  permissions = grant "comment.create" reader ∷ grant "comment.moderate" moderator ∷ [];
}

abbrev issues : PermissionGroup
issues = record {
  key = "issues";
  permissions =
      grant "issue.submit" reader
      ∷ grant "issue.verify" moderator
      ∷ grant "issue.publish" moderator
      ∷ grant "issue.resolve" moderator
      ∷ [];
}

abbrev support : PermissionGroup
support = record {
  key = "support";
  permissions =
      grant "contribution.view" moderator
      ∷ grant "contribution.confirm" moderator
      ∷ grant "membership.manage" admin
      ∷ [];
}

abbrev administration : PermissionGroup
administration = record {
  key = "administration";
  permissions =
      grant "category.manage" admin
      ∷ grant "settings.manage" admin
      ∷ critical_grant "user.manage" admin
      ∷ critical_grant "role.manage" admin
      ∷ grant "auditlog.view" admin
      ∷ [];
}

abbrev permission_groups : List PermissionGroup
permission_groups = workspace ∷ content ∷ community ∷ issues ∷ support ∷ administration ∷ []

flat_permissions : List PermissionGroup → List PermissionDefinition
flat_permissions [] = []
flat_permissions (g ∷ gs) = g.permissions ++ flat_permissions gs

pub all_permissions : List PermissionDefinition
unfolding flat_permissions
all_permissions = flat_permissions permission_groups

unfoldable pub permission_keys : List String
unfolding all_permissions
permission_keys = map (λ (p : PermissionDefinition). p.key) all_permissions

-- The map from keys to definitions; the keys are distinct, so the first hit is the only one.
pub definition_in : String → List PermissionDefinition → Option PermissionDefinition
definition_in key [] = none
definition_in key (p ∷ ps) = if str_eq p.key key then some p else definition_in key ps

unfoldable pub permission_definition : String → Option PermissionDefinition
unfolding definition_in all_permissions
permission_definition key = definition_in key all_permissions

abbrev present : Option PermissionDefinition → Bool
present none = false
present (some p) = true

unfoldable pub is_known_permission : String → Bool
is_known_permission key = present (permission_definition key)

unfoldable pub critical_permissions : List String
unfolding all_permissions
critical_permissions =
    map (λ (p : PermissionDefinition). p.key)
      (keep (λ (p : PermissionDefinition). p.critical) all_permissions)

abbrev pub tier_rank : Tier → ℕ
tier_rank reader = 0
tier_rank moderator = 1
tier_rank admin = 2

abbrev allowed_by : Tier → Option PermissionDefinition → Bool
allowed_by tier none = false
allowed_by tier (some p) = leb (tier_rank p.min_tier) (tier_rank tier)

unfoldable pub tier_allows : Tier → String → Bool
tier_allows tier key = allowed_by tier (permission_definition key)

pub record SystemRole : Type 0 where
  pub key : String
  pub name : String
  pub tier : Tier
  pub is_protected : Bool
  pub permissions : List String

abbrev pub reader_role : SystemRole
reader_role = record {
  key = "reader";
  name = "Reader";
  tier = reader;
  is_protected = false;
  permissions = "comment.create" ∷ "issue.submit" ∷ [];
}

abbrev pub moderator_role : SystemRole
moderator_role = record {
  key = "moderator";
  name = "Moderator";
  tier = moderator;
  is_protected = false;
  permissions =
      "dashboard.access" ∷ "analytics.view" ∷ "article.create" ∷ "article.edit.own"
      ∷ "article.publish" ∷ "article.delete" ∷ "media.upload" ∷ "comment.create"
      ∷ "comment.moderate" ∷ "issue.submit" ∷ "contribution.view" ∷ "contribution.confirm" ∷ [];
}

unfoldable pub admin_role : SystemRole
unfolding permission_keys
admin_role = record {
  key = "admin";
  name = "Administrator";
  tier = admin;
  is_protected = true;
  permissions = permission_keys;
}

unfoldable pub system_roles : List SystemRole
unfolding admin_role
system_roles = reader_role ∷ moderator_role ∷ admin_role ∷ []
