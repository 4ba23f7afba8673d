-- ===== src/Auth/Otp/Tests.antt =====
-- A mailed code that is guessed wrong, typed right and typed again.
use article.Prelude.{refl, ◌≡◌, List, Text, ◌≤◌, codes, ◌∷◌, []}
use article.Store.{Table}
use article.Auth.Otp.{
  issue_email_otp, verify_email_otp, ℕ, Option, EmailOtp, max_attempts, some, cooldown, none, right,
  fresh, sent, no_code,
}
use article.Auth.Otp.Guesses.{guesses, issue_email_otp-guesses, verify_email_otp_once}
use article.Store.Memory.{memory, put, update, delete}

abbrev O : Table EmailOtp
O = memory EmailOtp

-- The hash of the tests.
abbrev hash_code : Text → Text
hash_code code = 1 ∷ code

abbrev mailed : List (Option EmailOtp)
mailed = some (fresh O hash_code (codes "042042") 1000) ∷ []

mails : issue_email_otp O hash_code 0 (codes "042042") 1000 [] ≡ (sent, mailed)
unfolding issue_email_otp put
mails = refl

cools : (issue_email_otp O hash_code 0 (codes "111111") 30500 mailed).0 ≡ cooldown 31
unfolding issue_email_otp
cools = refl

abbrev tries : List (Text × ℕ)
tries =
    (codes "1", 2000)
    ∷ (codes "2", 2000)
    ∷ (codes "3", 2000)
    ∷ (codes "4", 2000)
    ∷ (codes "5", 2000)
    ∷ (codes "042042", 2000)
    ∷ []

five_of_six : guesses O hash_code 0 tries mailed ≡ 5
unfolding guesses verify_email_otp update delete
five_of_six = refl

issue_email_otp-guesses_example : guesses O hash_code 0 tries mailed ≤ max_attempts
issue_email_otp-guesses_example =
    issue_email_otp-guesses O hash_code 0 (codes "042042") 1000 tries [] mailed mails

opens : verify_email_otp O hash_code 0 (codes "042042") 5000 mailed ≡ (right, none ∷ [])
unfolding verify_email_otp delete
opens = refl

verify_email_otp_once_example :
    (verify_email_otp O hash_code 0 (codes "042042") 6000 (none ∷ [])).0 ≡ no_code
verify_email_otp_once_example =
    verify_email_otp_once O hash_code 0 (codes "042042") (codes "042042") 5000 6000 mailed
      (none ∷ []) opens
