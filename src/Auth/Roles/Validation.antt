-- ===== src/Auth/Roles/Validation.antt =====
-- What `validate_permissions` and `assert_protected_role_keeps_control` accept.
use article.Prelude.{
  ◌≡◌, refl, sym, ◌∙◌, ◌↔◌, inl, inr, String, Bool, true, false, not, ◌||◌, List, [], ◌∷◌, arith,
  includes, keep, all, str_eq, eq_iff, Result, ok, Bool-cases, all-includes, ◌>>◌,
}
use article.Auth.Permissions.{Tier, tier_allows, is_known_permission, critical_permissions}
use article.Auth.Permissions.Catalogue.{tier_allows-known}
use article.Auth.Roles.{
  unique_from, unique, insert_sorted, sorted, validate_permissions, none_left, tier_too_low,
  unknown_permission, assert_protected_role_keeps_control, must_keep, RoleRuleError,
}

includes-insert_sorted :
    (j k : String) (l : List String) → includes (insert_sorted j l) k ≡ (str_eq j k || includes l k)
unfolding insert_sorted
includes-insert_sorted j k [] = refl
includes-insert_sorted j k (x ∷ l) = ground (arith, includes-insert_sorted j k l)

includes-sorted : (k : String) (l : List String) → includes (sorted l) k ≡ includes l k
unfolding sorted
includes-sorted k [] = refl
includes-sorted k (x ∷ l) =
    ground (arith, includes-insert_sorted x k (sorted l), includes-sorted k l)

includes-unique_from :
    (k : String) (seen l : List String)
    → (includes (unique_from seen l) k || includes seen k) ≡ (includes l k || includes seen k)
unfolding unique_from
includes-unique_from k seen [] = refl
includes-unique_from k seen (x ∷ l) = elim (Bool-cases (includes seen x)) [
  | inl old ↦ ground (arith, includes-unique_from k seen l, eq_iff x k)
  | inr new ↦ ground (arith, includes-unique_from k (x ∷ seen) l, eq_iff x k)
]

or-false : (b : Bool) → (b || false) ≡ b
or-false b = ground arith

includes-unique : (k : String) (l : List String) → includes (unique l) k ≡ includes l k
unfolding unique
includes-unique k l = ground (arith, includes-unique_from k [] l)

-- A test holds of a whole list if it holds of every text that the list includes.
all_of_includes :
    (p : String → Bool) (l : List String)
    → ((k : String) → includes l k ≡ true → p k ≡ true)
    → all p l ≡ true
all_of_includes p [] h = refl
all_of_includes p (x ∷ l) h =
    ground (arith, h x, eq_iff x x, all_of_includes p l (λ k i. h k (ground (arith, i))))

all-eq_of_includes :
    (p : String → Bool) (l m : List String)
    → ((k : String) → includes m k ≡ true → includes l k ≡ true)
    → all p l ≡ true
    → all p m ≡ true
all-eq_of_includes p l m h a = all_of_includes p m (λ k i. all-includes p l k a (h k i))

-- Nothing fails a test exactly when everything passes it.
keep-not_iff :
    (p : String → Bool) (l : List String) → (keep (λ k. not (p k)) l ≡ []) ↔ (all p l ≡ true)
keep-not_iff p [] = (λ _. refl, λ _. refl)
keep-not_iff p (x ∷ l) = ground (arith, keep-not_iff p l)

none_left-ok : (l : List String) (e : List String → RoleRuleError) → none_left l e ≡ ok tt → l ≡ []
none_left-ok [] e h = refl
none_left-ok (x ∷ l) e h = cc

all-known :
    (t : Tier) (l : List String) → all (tier_allows t) l ≡ true → all is_known_permission l ≡ true
all-known t [] h = refl
all-known t (k ∷ l) h = ground (arith, tier_allows-known t k, all-known t l)

-- The two checks of a request, for the lists of refused entries.
abbrev checked : (unknown high result : List String) → Result RoleRuleError (List String)
checked unknown high result = do
  none_left unknown unknown_permission
  none_left high tier_too_low
  ok result

checked-ok :
    (unknown high result ps : List String)
    → checked unknown high result ≡ ok ps
    → (high ≡ []) × (result ≡ ps)
checked-ok [] [] result ps h = (refl, cc)
checked-ok [] (x ∷ high) result ps h = cc
checked-ok (x ∷ unknown) high result ps h = cc

-- Saved permissions are the requested ones, and the tier allows each.
pub validate_permissions-ok :
    (t : Tier) (requested ps : List String)
    → validate_permissions t requested ≡ ok ps
    → (all (tier_allows t) ps ≡ true) × ((k : String) → includes ps k ≡ includes requested k)
unfolding validate_permissions
validate_permissions-ok t requested ps h =
    let (low, same) = checked-ok _ _ (sorted (unique requested)) ps h in
    let allowed = (keep-not_iff (tier_allows t) (unique requested)).0 low in
    let named : (k : String) → includes ps k ≡ includes (unique requested) k =
      λ k. rw (← same) (includes-sorted k (unique requested)) in
    (
      all-eq_of_includes (tier_allows t) (unique requested) ps (λ k i. sym (named k) ∙ i) allowed,
      λ k. named k ∙ includes-unique k requested,
    )

-- A list of permissions is accepted for a tier exactly when the tier allows everything in it.
pub validate_permissions_iff :
    (t : Tier) (requested : List String)
    → ((ps : List String) × (validate_permissions t requested ≡ ok ps))
      ↔ (all (tier_allows t) requested ≡ true)
unfolding validate_permissions
validate_permissions_iff t requested = (to, from)
  where
    to :
        (ps : List String) × (validate_permissions t requested ≡ ok ps)
        → all (tier_allows t) requested ≡ true
    to (ps, h) =
        let (low, same) = checked-ok _ _ (sorted (unique requested)) ps h in
        all-eq_of_includes (tier_allows t) (unique requested) requested
          (λ k i. includes-unique k requested ∙ i)
          ((keep-not_iff (tier_allows t) (unique requested)).0 low)

    from :
        all (tier_allows t) requested ≡ true
        → (ps : List String) × (validate_permissions t requested ≡ ok ps)
    from h =
        let a =
          all-eq_of_includes (tier_allows t) requested (unique requested)
            (λ k i. sym (includes-unique k requested) ∙ i) h in
        let e = (keep-not_iff (tier_allows t) (unique requested)).1 a in
        let d = (keep-not_iff is_known_permission (unique requested)).1 (all-known t _ a) in
        (sorted (unique requested), rw (d, e))

-- The role that is protected keeps every critical permission.
pub assert_protected-ok :
    (ps : List String)
    → assert_protected_role_keeps_control true ps ≡ ok tt
    → all (includes ps) critical_permissions ≡ true
unfolding assert_protected_role_keeps_control
assert_protected-ok ps h =
    (keep-not_iff (includes ps) critical_permissions).0 (none_left-ok _ must_keep h)
