-- ===== src/Auth/Linking.antt =====
-- src/lib/auth/accountLinking.ts: what a sign-in with Google means where the address is known. `lower` is
-- the language's toLowerCase. Mailing the holder of the account is left out.
pub mod Both
pub mod Tests
use article.Prelude.{
  [], ◌∷◌, true, false, none, some, ok, err, Bool, Option, ℕ, Text, List, text_eq, if◌then◌else◌,
  Result, not, is_some,
}
use article.Store.{Table}
use article.Auth.Account.{User, is_live}
use article.Audit.{AuditEntry, record_audit}
use article.Auth.Rbac.{Thrown, fault}

-- A row of Account, for one provider; the tokens are left out.
pub record LinkedAccount : Type 0 where
  pub user_id : ℕ
  pub provider_account_id : Text

pub record GoogleIdentity : Type 0 where
  pub email : Option Text
  pub email_verified : Bool
  pub provider_account_id : Text

pub data RefusalReason : Type 0 where
  no_email account_suspended google_email_unverified local_email_unverified : RefusalReason

pub data LinkDecision : Type 0 where
  allow : LinkDecision
  link : ℕ → LinkDecision
  refuse : RefusalReason → LinkDecision

abbrev pub for_known : Bool → ℕ × User → LinkDecision
for_known google_vouches (id, user) =
    if not (is_live user)
    then refuse account_suspended
    else if not google_vouches
    then refuse google_email_unverified
    else if not user.email_verified
    then refuse local_email_unverified
    else link id

abbrev pub for_address : Bool → Option (ℕ × User) → LinkDecision
for_address google_vouches none = allow
for_address google_vouches (some e) = for_known google_vouches e

module _ (U : Table User) (K : Table LinkedAccount) where
  abbrev pub user_of : LinkedAccount → U.Rows → Option User
  user_of a users = U.find a.user_id users

  abbrev is_live_one : Option User → Bool
  is_live_one none = false
  is_live_one (some u) = is_live u

  abbrev pub for_linked :
      (Text → Text) → GoogleIdentity → Text → Option (ℕ × LinkedAccount) → U.Rows → LinkDecision
  for_linked lower identity email none users =
      for_address identity.email_verified (U.first (λ u. text_eq u.email (lower email)) users)
  for_linked lower identity email (some (i, a)) users =
      if is_live_one (user_of a users) then allow else refuse account_suspended

  abbrev pub for_email :
      (Text → Text) → GoogleIdentity → Option Text → U.Rows → K.Rows → LinkDecision
  for_email lower identity none users accounts = refuse no_email
  for_email lower identity (some []) users accounts = refuse no_email
  for_email lower identity (some (c ∷ email)) users accounts =
      for_linked lower identity (c ∷ email)
        (K.first (λ a. text_eq a.provider_account_id identity.provider_account_id) accounts) users

  unfoldable pub decide_linking : (Text → Text) → GoogleIdentity → U.Rows → K.Rows → LinkDecision
  decide_linking lower identity users accounts =
      for_email lower identity identity.email users accounts

  abbrev link_entry : ℕ → AuditEntry
  link_entry user_id = record {
    actor_id = user_id;
    action = "auth.google.linked";
    target_type = "User";
    target_id = user_id;
  }

  -- The row and its entry in one transaction, which the unique index refuses for an identity that is linked.
  unfoldable pub link_google_account :
      ℕ → Text → ℕ → K.Rows × List AuditEntry → Result Thrown (K.Rows × List AuditEntry)
  link_google_account user_id provider_account_id id (accounts, audit) =
      let row : LinkedAccount = record {
        user_id = user_id;
        provider_account_id = provider_account_id;
      } in
      if is_some (K.first (λ a. text_eq a.provider_account_id provider_account_id) accounts)
      then err fault
      else ok (K.put id row accounts, record_audit (link_entry user_id) audit)
