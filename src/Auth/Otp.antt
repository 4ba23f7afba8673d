-- ===== src/Auth/Otp.antt =====
-- src/lib/auth/emailOtp.ts: the code that is mailed as a second factor. The keyed hash (HMAC of
-- node:crypto) is a parameter. Sending the mail changes nothing here and is left out; the clock is read
-- once.
pub mod Guesses
pub mod Tests
use article.Prelude.{
  ℕ, ◌+◌, ◌*◌, ◌-◌, ◌/◌, Option, none, some, if◌then◌else◌, ltb, leb, Text, text_eq, Bool,
}
use article.Store.{Table}

abbrev pub code_ttl_ms : ℕ
code_ttl_ms = 600000

abbrev pub max_attempts : ℕ
max_attempts = 5

abbrev pub resend_cooldown_ms : ℕ
resend_cooldown_ms = 60000

-- A row of EmailOtp; a table has one for each account.
pub record EmailOtp : Type 0 where
  pub code_hash : Text
  pub expires_at : ℕ
  pub attempts : ℕ
  pub created_at : ℕ

pub data IssueResult : Type 0 where
  sent : IssueResult
  cooldown : (seconds_remaining : ℕ) → IssueResult

pub data VerifyResult : Type 0 where
  right wrong expired locked no_code : VerifyResult

module _ (O : Table EmailOtp) (hash_code : Text → Text) where
  abbrev pub fresh : Text → ℕ → EmailOtp
  fresh code now = record {
    code_hash = hash_code code;
    expires_at = now + code_ttl_ms;
    attempts = 0;
    created_at = now;
  }

  abbrev issued : ℕ → Text → ℕ → Option EmailOtp → O.Rows → IssueResult × O.Rows
  issued user code now none otps = (sent, O.put user (fresh code now) otps)
  issued user code now (some existing) otps =
      if ltb now (existing.created_at + resend_cooldown_ms)
      then (cooldown ((existing.created_at + resend_cooldown_ms - now + 999) / 1000), otps)
      else (sent, O.put user (fresh code now) otps)

  -- `code` is what the random source drew. A new code replaces the old one and its count of guesses.
  pub issue_email_otp : ℕ → Text → ℕ → O.Rows → IssueResult × O.Rows
  issue_email_otp user code now otps = issued user code now (O.find user otps) otps

  -- A guess that is wrong.
  abbrev missed : ℕ → EmailOtp → O.Rows → VerifyResult × O.Rows
  missed user r otps =
      if leb max_attempts (r.attempts + 1)
      then (locked, O.delete user otps)
      else (wrong, O.update user (λ r'. record r' { attempts = r.attempts + 1 }) otps)

  abbrev checked : ℕ → Text → ℕ → Option EmailOtp → O.Rows → VerifyResult × O.Rows
  checked user code now none otps = (no_code, otps)
  checked user code now (some r) otps =
      if leb r.expires_at now
      then (expired, O.delete user otps)
      else if text_eq r.code_hash (hash_code code)
      then (right, O.delete user otps)
      else missed user r otps

  pub verify_email_otp : ℕ → Text → ℕ → O.Rows → VerifyResult × O.Rows
  verify_email_otp user code now otps = checked user code now (O.find user otps) otps

  unfoldable pub clear_email_otp : ℕ → O.Rows → O.Rows
  clear_email_otp user otps = O.delete user otps
