-- ===== src/Articles/Slugs.antt =====
-- src/lib/slugify.ts, the slug of src/lib/validation/article.ts, and the search for one that is free in
-- src/app/(dashboard)/dashboard/articles/actions.ts.
pub mod Decimals
pub mod Free
pub mod Kept
use article.Prelude.{
  ℕ, zero, suc, ◌+◌, ◌/◌, ◌%◌, Bool, true, false, not, ◌&&◌, Option, none, some, [], ◌∷◌, ◌++◌, ltb,
  leb, ◌==◌, if◌then◌else◌, Text, codes, text_eq, is_slug_char, keep, take, length, is_empty,
}
use article.Store.{Table}

-- `.replace(/[^a-z0-9]+/g, "-")`, which keeps one dash for a run; `dashed` says that a run is under way.
unfoldable pub dash_runs : Bool → Text → Text
dash_runs dashed [] = []
dash_runs dashed (c ∷ s) =
    let in_run = dash_runs true s in
    let after = dash_runs false s in
    if is_slug_char c then c ∷ after else if dashed then in_run else b'-' ∷ in_run

-- `.replace(/^-+|-+$/g, "")`
unfoldable pub drop_dashes : Text → Text
drop_dashes [] = []
drop_dashes (c ∷ s) = let rest = drop_dashes s in if c == b'-' then rest else c ∷ s

unfoldable pub drop_last_dashes : Text → Text
drop_last_dashes [] = []
drop_last_dashes (c ∷ s) =
    let rest = drop_last_dashes s in if c == b'-' && is_empty rest then [] else c ∷ rest

abbrev is_accent : ℕ → Bool
is_accent c = leb 0x300 c && leb c 0x36f

-- `normalise` is the language's `.toLowerCase().normalize("NFKD")`.
unfoldable pub slugify : (Text → Text) → Text → Text
unfolding dash_runs drop_dashes drop_last_dashes
slugify normalise input =
    let plain = keep (λ c. not (is_accent c)) (normalise input) in
    take 160 (drop_last_dashes (drop_dashes (dash_runs false plain)))

-- /^[a-z0-9]+(?:-[a-z0-9]+)*$/; `started` says that the group under way has a character.
unfoldable pub is_slug_from : Bool → Text → Bool
is_slug_from started [] = started
is_slug_from started (c ∷ s) =
    let more = is_slug_from true s in
    let next = is_slug_from false s in if is_slug_char c then more else c == b'-' && started && next

unfoldable pub is_slug : Text → Bool
unfolding is_slug_from
is_slug s = leb 2 (length s) && leb (length s) 160 && is_slug_from false s

-- A number as its decimal digits, for as many steps as its first argument.
unfoldable pub decimal_from : ℕ → ℕ → Text
decimal_from zero n = []
decimal_from (suc k) n =
    let high = decimal_from k (n / 10) in
    let low = (b'0' + n % 10) ∷ [] in if ltb n 10 then low else high ++ low

unfoldable pub decimal : ℕ → Text
unfolding decimal_from
decimal n = decimal_from (suc n) n

-- `${root}-${n}`
abbrev pub numbered : Text → ℕ → Text
numbered root n = root ++ b'-' ∷ decimal n

abbrev pub root_of : Text → Text
root_of s = if is_empty s then codes "article" else s

module _ {R : Type 0} (T : Table R) (slug_of : R → Text) where
  abbrev pub own : Option ℕ → ℕ → Bool
  own none id = false
  own (some j) id = j == id

  abbrev pub usable : Option ℕ → Option (ℕ × R) → Bool
  usable exclude none = true
  usable exclude (some (id, r)) = own exclude id

  -- The loop, for as many rounds as its first argument.
  unfoldable pub unique_slug_from : ℕ → Text → Text → ℕ → Option ℕ → T.Rows → Option Text
  unique_slug_from zero root candidate n exclude rows = none
  unique_slug_from (suc fuel) root candidate n exclude rows =
      let later = unique_slug_from fuel root (numbered root n) (suc n) exclude rows in
      if usable exclude (T.first (λ r. text_eq (slug_of r) candidate) rows)
      then some candidate
      else later

  -- One round more than there are rows is enough.
  unfoldable pub unique_slug : (Text → Text) → Text → Option ℕ → T.Rows → Option Text
  unfolding unique_slug_from
  unique_slug normalise base exclude rows =
      let root = root_of (slugify normalise base) in
      unique_slug_from (suc (length (T.select (λ _ _. true) rows))) root root 2 exclude rows
