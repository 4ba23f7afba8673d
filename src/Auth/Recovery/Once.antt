-- ===== src/Auth/Recovery/Once.antt =====
-- A recovery code is used once.
use article.Prelude.{
  [], ◌∷◌, true, false, inl, inr, refl, List, ◌≡◌, arith, text_eq_iff, ◌+◌, Bool-cases, subst,
}
use article.Auth.Recovery.{
  without_first, consume_recovery_code, hash_recovery_code, Text, holds, text_eq, length,
}
use article.Support.Money.{lower}

-- No hash is stored twice.
abbrev pub AreDistinct : List Text → Type 0
AreDistinct [] = Unit
AreDistinct (h ∷ hashes) = (holds h hashes ≡ false) × AreDistinct hashes

without_first-holds :
    (c : Text) (hashes : List Text)
    → AreDistinct hashes
    → holds c hashes ≡ true
    → holds c (without_first c hashes) ≡ false
unfolding without_first
without_first-holds c [] d h = absurd (ground arith)
without_first-holds c (s ∷ hashes) (n, d) h = elim (Bool-cases (text_eq s c)) [
  | inl y ↦
      let e : s ≡ c = ground (arith, text_eq_iff s c) in
      rw y (subst (λ x. holds x hashes ≡ false) e n)
  | inr o ↦ rw o (ground (arith, without_first-holds c hashes d))
]

without_first-length :
    (c : Text) (hashes : List Text)
    → holds c hashes ≡ true
    → length (without_first c hashes) + 1 ≡ length hashes
unfolding without_first
without_first-length c [] h = absurd (ground arith)
without_first-length c (s ∷ hashes) h = ground (arith, without_first-length c hashes)

without_first-other :
    (c d : Text) (hashes : List Text)
    → text_eq c d ≡ false
    → holds d (without_first c hashes) ≡ holds d hashes
unfolding without_first
without_first-other c d [] h = refl
without_first-other c d (s ∷ hashes) h =
    ground
      (arith, without_first-other c d hashes h, text_eq_iff s c, text_eq_iff s d, text_eq_iff c d)

-- Where no hash is stored twice, a code that matches leaves one hash less, matches no more however it is
-- typed, and leaves what any code with another hash matches.
pub consume_recovery_code_once :
    (lower hash : Text → Text) (stored : List Text) (code again other : Text)
    → AreDistinct stored
    → (consume_recovery_code lower hash stored code).matched ≡ true
    → hash_recovery_code lower hash again ≡ hash_recovery_code lower hash code
    → text_eq (hash_recovery_code lower hash code) (hash_recovery_code lower hash other) ≡ false
    → (length (consume_recovery_code lower hash stored code).remaining + 1 ≡ length stored)
      × ((consume_recovery_code lower hash
            (consume_recovery_code lower hash stored code).remaining
            again).matched
          ≡ false)
      × ((consume_recovery_code lower hash
            (consume_recovery_code lower hash stored code).remaining
            other).matched
          ≡ (consume_recovery_code lower hash stored other).matched)
unfolding consume_recovery_code hash_recovery_code
consume_recovery_code_once lower hash stored code again other d m e n =
    let c = hash_recovery_code lower hash code in
    (
      rw m (without_first-length c stored m),
      rw m (rw e (without_first-holds c stored d m)),
      rw m (without_first-other c (hash_recovery_code lower hash other) stored n),
    )
