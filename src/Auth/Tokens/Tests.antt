-- ===== src/Auth/Tokens/Tests.antt =====
-- One link for an address.
use article.Prelude.{[], ◌∷◌, true, false, some, refl, zero, suc, ◌≡◌, arith, ◌+◌}
use article.Store.Memory.{memory}
use article.Auth.Tokens.{
  email_verify, password_reset, Text, ℕ, codes, consume_token, Table, VerificationToken,
  create_token, ltb, text_eq,
}
use article.Auth.Tokens.Once.{consume_token-again, create_token-consume_token}

abbrev V : Table VerificationToken
V = memory VerificationToken

abbrev same : Text → Text
same s = s

abbrev mailed : V.Rows
mailed = some (record { identifier = codes "email-verify:a"; token = codes "r"; expires = 9 }) ∷ []

one_token :
    (i j : ℕ) (r s : VerificationToken)
    → V.find i mailed ≡ some r
    → V.find j mailed ≡ some s
    → text_eq r.token s.token ≡ true
    → i ≡ j
one_token zero zero r s f g q = refl
one_token zero (suc j) r s f g q = absurd (ground arith)
one_token (suc i) j r s f g q = absurd (ground arith)

nothing_there :
    (j : ℕ) (s : VerificationToken) → V.find j [] ≡ some s → text_eq s.token (codes "r") ≡ false
nothing_there j s f = absurd (ground arith)

consume_token-again_example :
    (consume_token V same same password_reset
      (codes "b")
      (codes "r")
      6
      (consume_token V same same email_verify (codes "a") (codes "r") 5 mailed).1).0
    ≡ false
consume_token-again_example =
    consume_token-again V same same email_verify password_reset (codes "a") (codes "b") (codes "r")
      5 6 mailed one_token

create_token-consume_token_example :
    (consume_token V same same email_verify
      (codes "a")
      (codes "r")
      5
      (create_token V same same email_verify (codes "a") 10 (codes "r") 0 0 [])).0
    ≡ ltb 5 (0 + 10)
create_token-consume_token_example =
    create_token-consume_token V same same email_verify (codes "a") (codes "a") (codes "r") 10 0 5 0
      [] nothing_there refl
