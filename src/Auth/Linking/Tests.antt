-- ===== src/Auth/Linking/Tests.antt =====
-- An identity of Google for an address that is confirmed here.
use article.Prelude.{[], ◌∷◌, true, false, none, some, refl, ◌≡◌, codes}
use article.Store.Memory.{memory, first_from}
use article.Auth.Account.{active, User}
use article.Auth.Permissions.{reader}
use article.Auth.Linking.{link, Text, GoogleIdentity, decide_linking, Table, LinkedAccount}
use article.Auth.Linking.Both.{Proved, decide_linking-Proved}

abbrev U : Table User
U = memory User

abbrev K : Table LinkedAccount
K = memory LinkedAccount

abbrev same : Text → Text
same s = s

abbrev holder : User
holder = record {
  email = codes "a@b";
  handle = [];
  name = [];
  role_id = none;
  district_id = none;
  role = reader;
  status = active;
  anonymised = false;
  email_verified = true;
  must_change_password = false;
  mfa_enabled = false;
  mfa_secret = none;
  mfa_recovery_codes = none;
  session_version = 0;
}

abbrev identity : GoogleIdentity
identity = record {
  email = some (codes "a@b");
  email_verified = true;
  provider_account_id = codes "9";
}

links_it : decide_linking U K same identity (some holder ∷ []) [] ≡ link 0
unfolding decide_linking first_from
links_it = refl

decide_linking-Proved_example : Proved U K same identity (some holder ∷ []) [] 0
decide_linking-Proved_example =
    decide_linking-Proved U K same identity (some holder ∷ []) [] 0 links_it
