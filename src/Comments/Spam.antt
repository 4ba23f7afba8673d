-- ===== src/Comments/Spam.antt =====
-- src/lib/spam.ts: which comments a person has to look at first. The reasons, which only say why, are left
-- out.
use article.Prelude.{
  [], ◌∷◌, true, false, none, some, Text, List, Bool, Option, ℕ, keep, map, is_some, ltb, String,
  if◌then◌else◌, leb, not, length, ◌&&◌, ◌==◌, codes, is_space, ◌||◌, any, all, suc, ◌+◌, to_lower,
}

-- What /i makes equal, on the letters of the pattern.
abbrev fold : ℕ → ℕ
fold c = if leb b'A' c && leb c b'Z' then c + 32 else c

-- What is left of a text behind a prefix.
unfoldable pub behind : Text → Text → Option Text
behind [] s = some s
behind (p ∷ ps) [] = none
behind (p ∷ ps) (c ∷ s) = let rest = behind ps s in if p == c then rest else none

abbrev starts_word : Option Text → Bool
starts_word none = false
starts_word (some []) = false
starts_word (some (c ∷ s)) = not (is_space c)

-- A prefix of the pattern with \S behind it.
unfoldable pub starts_link : Text → Bool
unfolding behind
starts_link s =
    let folded = map fold s in
    starts_word (behind (codes "http://") folded)
    || starts_word (behind (codes "https://") folded)
    || starts_word (behind (codes "www.") folded)

-- How often URL_PATTERN matches; `inside` says that \S+ of a match is under way, which runs to the next space.
unfoldable pub count_links : Bool → Text → ℕ
count_links inside [] = 0
count_links inside (c ∷ s) =
    let on = count_links true s in
    let off = count_links false s in
    if inside then (if is_space c then off else on) else if starts_link (c ∷ s) then suc on else off

-- `s.includes(p)`
unfoldable pub contains : Text → Text → Bool
unfolding behind
contains p [] = is_some (behind p [])
contains p (c ∷ s) = is_some (behind p (c ∷ s)) || contains p s

abbrev pub spam_phrases : List String
spam_phrases = "buy now" ∷ "click here" ∷ "casino" ∷ "crypto giveaway" ∷ "free money" ∷ []

abbrev is_lower : ℕ → Bool
is_lower c = leb b'a' c && leb c b'z'

abbrev is_upper : ℕ → Bool
is_upper c = leb b'A' c && leb c b'Z'

abbrev pub letters : Text → Text
letters s = keep (λ c. is_lower c || is_upper c) s

-- `letters === letters.toUpperCase()` on letters
abbrev pub is_shouting : Text → Bool
is_shouting s = leb 20 (length (letters s)) && all is_upper (letters s)

-- `assessComment(body).needsReview`
unfoldable pub needs_review : Text → Bool
unfolding count_links contains
needs_review body =
    ltb 2 (count_links false body)
    || any (λ p. contains (codes p) (map to_lower body)) spam_phrases
    || is_shouting body
