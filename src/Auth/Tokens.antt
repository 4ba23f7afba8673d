-- ===== src/Auth/Tokens.antt =====
-- src/lib/auth/tokens.ts: the links that are mailed to confirm an address, to reset a password and to
-- change an address. `lower` is the language's toLowerCase, `hash` SHA-256 of the runtime, and `raw` what
-- its random source made up.
pub mod Once
pub mod Tests
use article.Prelude.{
  [], ◌∷◌, true, false, none, some, Text, ◌++◌, ℕ, Option, codes, List, ◌+◌, Bool, text_eq, ◌&&◌,
  ltb,
}
use article.Store.{Table}

pub data TokenPurpose : Type 0 where
  email_verify password_reset email_change : TokenPurpose

-- A row of VerificationToken.
pub record VerificationToken : Type 0 where
  pub identifier : Text
  pub token : Text
  pub expires : ℕ

abbrev purpose_text : TokenPurpose → Text
purpose_text email_verify = codes "email-verify"
purpose_text password_reset = codes "password-reset"
purpose_text email_change = codes "email-change"

unfoldable pub scoped_identifier : (Text → Text) → TokenPurpose → Text → Text
scoped_identifier lower purpose email = purpose_text purpose ++ b':' ∷ lower email

abbrev pub holds_for : Text → ℕ → Option (ℕ × VerificationToken) → Bool
holds_for identifier now none = false
holds_for identifier now (some (i, r)) = text_eq r.identifier identifier && ltb now r.expires

module _ (V : Table VerificationToken) (lower hash : Text → Text) where
  -- `deleteMany`
  unfoldable pub delete_all : List (ℕ × VerificationToken) → V.Rows → V.Rows
  delete_all [] tokens = tokens
  delete_all ((i, r) ∷ rows) tokens = delete_all rows (V.delete i tokens)

  abbrev pub new_token : Text → Text → ℕ → VerificationToken
  new_token identifier raw expires = record {
    identifier = identifier;
    token = hash raw;
    expires = expires;
  }

  unfoldable pub create_token : TokenPurpose → Text → ℕ → Text → ℕ → ℕ → V.Rows → V.Rows
  unfolding delete_all
  create_token purpose email ttl_ms raw now id tokens =
      let identifier = scoped_identifier lower purpose email in
      V.put id (new_token identifier raw (now + ttl_ms))
        (delete_all (V.select (λ _ r. text_eq r.identifier identifier) tokens) tokens)

  abbrev pub without : Option (ℕ × VerificationToken) → V.Rows → V.Rows
  without none tokens = tokens
  without (some (i, r)) tokens = V.delete i tokens

  unfoldable pub consume_token : TokenPurpose → Text → Text → ℕ → V.Rows → Bool × V.Rows
  consume_token purpose email raw now tokens =
      let found = V.first (λ r. text_eq r.token (hash raw)) tokens in
      (holds_for (scoped_identifier lower purpose email) now found, without found tokens)
