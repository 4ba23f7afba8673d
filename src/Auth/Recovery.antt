-- ===== src/Auth/Recovery.antt =====
-- src/lib/auth/recoveryCodes.ts: the codes that let a person in without the authenticator. `hash` is the
-- keyed hash of the runtime's crypto library, whose values are compared as texts, and `lower` the language's
-- `toLowerCase`; the stored column is the list of hashes.
pub mod Once
pub mod Tests
use article.Prelude.{
  [], ◌∷◌, true, false, none, some, Bool, ℕ, Text, List, Option, if◌then◌else◌, take, any,
  get_elem?, codes, map, keep, length, ◌==◌, ◌++◌, ◌%◌, not, text_eq, ◌&&◌, drop, is_space, all,
  ◌||◌, is_slug_char,
}

abbrev pub alphabet : Text
alphabet = codes "abcdefghjkmnpqrstuvwxyz23456789"

abbrev pub recovery_code_count : ℕ
recovery_code_count = 10

-- `input.toLowerCase().replace(/[\s-]/g, "")`
unfoldable pub normalise_recovery_code : (Text → Text) → Text → Text
normalise_recovery_code lower input = keep (λ c. not (is_space c || c == b'-')) (lower input)

-- /^[a-z0-9]{8}$/
unfoldable pub looks_like_recovery_code : (Text → Text) → Text → Bool
unfolding normalise_recovery_code
looks_like_recovery_code lower input =
    let code = normalise_recovery_code lower input in length code == 8 && all is_slug_char code

abbrev letter_at : Option ℕ → Text
letter_at none = []
letter_at (some c) = c ∷ []

-- `ALPHABET[b % ALPHABET.length]`
abbrev pub letters_of : List ℕ → Text
letters_of [] = []
letters_of (b ∷ bytes) = letter_at (get_elem? alphabet (b % length alphabet)) ++ letters_of bytes

-- The codes for eight random bytes each.
unfoldable pub generate_recovery_codes : List (List ℕ) → List Text
generate_recovery_codes [] = []
generate_recovery_codes (bytes ∷ more) =
    let code = letters_of bytes in
    (take 4 code ++ b'-' ∷ drop 4 code) ∷ generate_recovery_codes more

unfoldable pub hash_recovery_code : (Text → Text) → (Text → Text) → Text → Text
hash_recovery_code lower hash code = hash (normalise_recovery_code lower code)

unfoldable pub hash_recovery_codes : (Text → Text) → (Text → Text) → List Text → List Text
hash_recovery_codes lower hash codes = map (hash_recovery_code lower hash) codes

-- The list without the first entry that equals the candidate.
unfoldable pub without_first : Text → List Text → List Text
without_first candidate [] = []
without_first candidate (stored ∷ hashes) =
    let rest = without_first candidate hashes in
    if text_eq stored candidate then hashes else stored ∷ rest

abbrev pub holds : Text → List Text → Bool
holds candidate hashes = any (λ stored. text_eq stored candidate) hashes

pub record ConsumeResult : Type 0 where
  pub matched : Bool
  pub remaining : List Text

unfoldable pub consume_recovery_code :
    (Text → Text) → (Text → Text) → List Text → Text → ConsumeResult
unfolding hash_recovery_code without_first
consume_recovery_code lower hash stored_hashes code =
    let candidate = hash_recovery_code lower hash code in
    record {
      matched = holds candidate stored_hashes;
      remaining =
          if holds candidate stored_hashes
          then without_first candidate stored_hashes
          else stored_hashes;
    }
