-- ===== src/Auth/Linking/Both.antt =====
-- A link needs both sides to have proved the address.
use article.Prelude.{[], ◌∷◌, true, none, some, inl, inr, refl, ◌≡◌, Option-cases, arith}
use article.Auth.Linking.{
  link, Table, Bool, User, ℕ, LinkedAccount, for_known, Text, is_live, GoogleIdentity,
  decide_linking, text_eq, Option, for_linked, for_email,
}

-- What has to hold for an identity to be linked to an account.
pub record Proved (U : Table User) (K : Table LinkedAccount) (lower : Text → Text)
    (identity : GoogleIdentity) (users : U.Rows) (accounts : K.Rows) (id : ℕ) : Type 0 where
  pub email : Text
  pub user : User
  pub has_email : identity.email ≡ some email
  pub unlinked :
      K.first (λ a. text_eq a.provider_account_id identity.provider_account_id) accounts ≡ none
  pub found : U.find id users ≡ some user
  pub same_address : text_eq user.email (lower email) ≡ true
  pub live : is_live user ≡ true
  pub google_verified : identity.email_verified ≡ true
  pub local_verified : user.email_verified ≡ true

for_known-link :
    (vouches : Bool) (i id : ℕ) (user : User)
    → for_known vouches (i, user) ≡ link id
    → (i ≡ id) × (is_live user ≡ true) × (vouches ≡ true) × (user.email_verified ≡ true)
for_known-link vouches i id user h = ground arith

module _ (U : Table User) (K : Table LinkedAccount) (lower : Text → Text) where
  for_linked-link :
      (identity : GoogleIdentity) (email : Text) (o : Option (ℕ × LinkedAccount)) (users : U.Rows)
      (accounts : K.Rows) (id : ℕ)
      → identity.email ≡ some email
      → K.first (λ a. text_eq a.provider_account_id identity.provider_account_id) accounts ≡ o
      → for_linked U K lower identity email o users ≡ link id
      → Proved U K lower identity users accounts id
  for_linked-link identity email (some (j, a)) users accounts id e f h = absurd (ground arith)
  for_linked-link identity email none users accounts id e f h =
      elim (Option-cases (U.first (λ u. text_eq u.email (lower email)) users)) [
        | inl n ↦ absurd (ground arith)
        | inr ((i, u), q) ↦
            let (k, l, v, w) = for_known-link identity.email_verified i id u (ground (arith, q)) in
            let (g, p) = U.first-some (λ u. text_eq u.email (lower email)) users i u q in
            record {
              email = email;
              user = u;
              has_email = e;
              unlinked = f;
              found = rw (← k) g;
              same_address = p;
              live = l;
              google_verified = v;
              local_verified = w;
            }
      ]

  for_email-link :
      (identity : GoogleIdentity) (o : Option Text) (users : U.Rows) (accounts : K.Rows) (id : ℕ)
      → identity.email ≡ o
      → for_email U K lower identity o users accounts ≡ link id
      → Proved U K lower identity users accounts id
  for_email-link identity none users accounts id e h = absurd (ground arith)
  for_email-link identity (some []) users accounts id e h = absurd (ground arith)
  for_email-link identity (some (c ∷ email)) users accounts id e h =
      for_linked-link identity (c ∷ email) _ users accounts id e refl h

  -- A sign-in decides for linking to an account only if the provider gave an address and vouches for it, the
  -- identity is not linked yet, and the account is live, has that address and has confirmed it.
  pub decide_linking-Proved :
      (identity : GoogleIdentity) (users : U.Rows) (accounts : K.Rows) (id : ℕ)
      → decide_linking U K lower identity users accounts ≡ link id
      → Proved U K lower identity users accounts id
  unfolding decide_linking
  decide_linking-Proved identity users accounts id h =
      for_email-link identity identity.email users accounts id refl h
