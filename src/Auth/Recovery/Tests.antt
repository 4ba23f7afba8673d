-- ===== src/Auth/Recovery/Tests.antt =====
-- Two codes, one of them used.
use article.Prelude.{
  [], ◌∷◌, true, false, refl, Text, List, text_eq, length, ◌≡◌, ◌+◌, to_lower, map,
}
use article.Auth.Recovery.{
  hash_recovery_code, consume_recovery_code, codes, normalise_recovery_code,
}
use article.Auth.Recovery.Once.{consume_recovery_code_once}

abbrev stored : List Text
stored = codes "abcdefgh" ∷ codes "jkmnpqrs" ∷ []

abbrev lower : Text → Text
lower = map to_lower

abbrev same : Text → Text
same s = s

typed : (consume_recovery_code lower same stored (codes "ABCD-EFGH")).matched ≡ true
unfolding consume_recovery_code normalise_recovery_code to_lower
typed = refl

typed_again :
    hash_recovery_code lower same (codes "abcd efgh")
    ≡ hash_recovery_code lower same (codes "ABCD-EFGH")
unfolding hash_recovery_code normalise_recovery_code to_lower
typed_again = refl

others_differ :
    text_eq
      (hash_recovery_code lower same (codes "ABCD-EFGH"))
      (hash_recovery_code lower same (codes "jkmn-pqrs"))
    ≡ false
unfolding hash_recovery_code normalise_recovery_code to_lower
others_differ = refl

consume_recovery_code_once_example :
    (length (consume_recovery_code lower same stored (codes "ABCD-EFGH")).remaining + 1 ≡ 2)
    × ((consume_recovery_code lower same
          (consume_recovery_code lower same stored (codes "ABCD-EFGH")).remaining
          (codes "abcd efgh")).matched
        ≡ false)
    × ((consume_recovery_code lower same
          (consume_recovery_code lower same stored (codes "ABCD-EFGH")).remaining
          (codes "jkmn-pqrs")).matched
        ≡ (consume_recovery_code lower same stored (codes "jkmn-pqrs")).matched)
consume_recovery_code_once_example =
    consume_recovery_code_once lower same stored (codes "ABCD-EFGH") (codes "abcd efgh")
      (codes "jkmn-pqrs") (refl, (refl, tt)) typed typed_again others_differ
