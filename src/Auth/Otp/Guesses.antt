-- ===== src/Auth/Otp/Guesses.antt =====
-- Guesses at the code of src/lib/auth/emailOtp.ts.
use article.Prelude.{
  ℕ, suc, ◌+◌, ◌-◌, ◌≤◌, ◌≡◌, ◌↔◌, ◌<◌, Option, none, some, List, [], ◌∷◌, arith, Text, text_eq,
  true, Option-cases, inl, inr, ap, sym, ◌∙◌,
}
use article.Store.{Table}
use article.Auth.Otp.{
  EmailOtp, VerifyResult, sent, right, wrong, expired, locked, no_code, issue_email_otp,
  verify_email_otp, max_attempts, fresh,
}

-- Whether a guess was compared with a live code.
abbrev pub compared : VerifyResult → ℕ
compared right = 1
compared wrong = 1
compared locked = 1
compared expired = 0
compared no_code = 0

-- How many guesses a row has left.
abbrev left : Option EmailOtp → ℕ
left none = 0
left (some r) = suc (4 - r.attempts)

module _ (O : Table EmailOtp) (hash_code : Text → Text) where
  -- The guesses compared in a run of attempts, each a code and its moment.
  unfoldable pub guesses : ℕ → List (Text × ℕ) → O.Rows → ℕ
  guesses user [] otps = 0
  guesses user ((code, now) ∷ tries) otps =
      let (result, otps') = verify_email_otp O hash_code user code now otps in
      compared result + guesses user tries otps'

  guess-left :
      (user : ℕ) (code : Text) (now : ℕ) (otps : O.Rows)
      → let (result, otps') = verify_email_otp O hash_code user code now otps in
        compared result + left (O.find user otps') ≤ left (O.find user otps)
  unfolding verify_email_otp
  guess-left user code now otps = elim (Option-cases (O.find user otps)) [
    | inl gone ↦ rw gone (ground (arith, gone))
    | inr (r, f) ↦ ground (
      arith,
      f,
      O.find-delete user user otps,
      O.find-update user user (λ r'. record r' { attempts = r.attempts + 1 }) otps,
    )
  ]

  guesses-left :
      (user : ℕ) (tries : List (Text × ℕ)) (otps : O.Rows)
      → guesses user tries otps ≤ left (O.find user otps)
  unfolding guesses
  guesses-left user [] otps = omega arith
  guesses-left user ((code, now) ∷ tries) otps =
      let step = guess-left user code now otps in
      let rest = guesses-left user tries (verify_email_otp O hash_code user code now otps).1 in
      omega arith

  -- Of the codes that are tried after one was mailed, however many and whenever, at most five are
  -- compared with it, as long as no other is mailed.
  pub issue_email_otp-guesses :
      (user : ℕ) (code : Text) (now : ℕ) (tries : List (Text × ℕ)) (otps otps' : O.Rows)
      → issue_email_otp O hash_code user code now otps ≡ (sent, otps')
      → guesses user tries otps' ≤ max_attempts
  unfolding issue_email_otp
  issue_email_otp-guesses user code now tries otps otps' h =
      let after : O.find user otps' ≡ some (fresh O hash_code code now) =
        elim (Option-cases (O.find user otps)) [
          | inl gone ↦ ground (arith, O.find-put user user (fresh O hash_code code now) otps)
          | inr (r, f) ↦ ground (arith, O.find-put user user (fresh O hash_code code now) otps)
        ] in
      rw after at (guesses-left user tries otps')

  verified :
      (user : ℕ) (code : Text) (now : ℕ) (otps : O.Rows)
      → (verify_email_otp O hash_code user code now otps).0 ≡ right
      → (r : EmailOtp) × (O.find user otps ≡ some r)
        × (now < r.expires_at)
        × (text_eq r.code_hash (hash_code code) ≡ true)
        × ((verify_email_otp O hash_code user code now otps).1 ≡ O.delete user otps)
  unfolding verify_email_otp
  verified user code now otps h = elim (Option-cases (O.find user otps)) [
    | inl gone ↦ absurd (ground arith)
    | inr (r, f) ↦ (r, f, ground arith, ground arith, ground arith)
  ]

  accepted :
      (user : ℕ) (code : Text) (now : ℕ) (otps : O.Rows) (r : EmailOtp)
      → O.find user otps ≡ some r
      → now < r.expires_at
      → text_eq r.code_hash (hash_code code) ≡ true
      → (verify_email_otp O hash_code user code now otps).0 ≡ right
  unfolding verify_email_otp
  accepted user code now otps r f e m = ground arith

  no_row :
      (user : ℕ) (code : Text) (now : ℕ) (otps : O.Rows)
      → (verify_email_otp O hash_code user code now (O.delete user otps)).0 ≡ no_code
  unfolding verify_email_otp
  no_row user code now otps = ground (arith, O.find-delete user user otps)

  -- A code is accepted exactly when one is stored for the account that has not expired and has the
  -- same hash.
  pub verify_email_otp-right_iff :
      (user : ℕ) (code : Text) (now : ℕ) (otps : O.Rows)
      → ((verify_email_otp O hash_code user code now otps).0 ≡ right) ↔ (
          (r : EmailOtp) × (O.find user otps ≡ some r)
          × (now < r.expires_at)
          × (text_eq r.code_hash (hash_code code) ≡ true))
  verify_email_otp-right_iff user code now otps = (
    λ h. let (r, f, e, m, _) = verified user code now otps h in (r, f, e, m),
    λ (r, f, e, m). accepted user code now otps r f e m,
  )

  -- A code that is typed next after one was accepted is not compared with anything: no code is
  -- left.
  pub verify_email_otp_once :
      (user : ℕ) (code again : Text) (now later : ℕ) (otps otps' : O.Rows)
      → verify_email_otp O hash_code user code now otps ≡ (right, otps')
      → (verify_email_otp O hash_code user again later otps').0 ≡ no_code
  verify_email_otp_once user code again now later otps otps' h =
      let (_, _, _, _, after) = verified user code now otps (ap (λ p. p.0) h) in
      let e : otps' ≡ O.delete user otps = sym (ap (λ p. p.1) h) ∙ after in
      rw e (no_row user again later otps)
