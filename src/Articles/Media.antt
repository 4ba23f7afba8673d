-- ===== src/Articles/Media.antt =====
-- src/lib/articleMedia.ts: the files that an article uses, and which of them may not be published yet.
-- `media_urls` is `extractMediaUrls` of src/lib/mediaRights.ts, the addresses that a body refers to.
use article.Prelude.{
  ℕ, Bool, false, ◌||◌, Option, none, some, List, [], ◌∷◌, ◌++◌, ◌==◌, if◌then◌else◌, Text, text_eq,
  any, map, is_some,
}
use article.Store.{Table}
use article.Articles.Rights.{Media, RightsProblem, rights_problem}
use article.Articles.Records.{Article}

abbrev pub is_cover : Option ℕ → ℕ → Bool
is_cover none id = false
is_cover (some c) id = c == id

-- The last row with an address, as a map from addresses keeps it.
abbrev pub by_url : Text → List (ℕ × Media) → Option (ℕ × Media)
by_url url [] = none
by_url url ((i, m) ∷ rows) =
    let later = by_url url rows in
    if is_some later then later else if text_eq m.url url then some (i, m) else none

abbrev pub has_id : ℕ → List (ℕ × Media) → Bool
has_id i rows = any (λ (e : ℕ × Media). e.0 == i) rows

abbrev pub add_found : Option (ℕ × Media) → List (ℕ × Media) → List (ℕ × Media)
add_found none ordered = ordered
add_found (some (i, m)) ordered = if has_id i ordered then ordered else ordered ++ (i, m) ∷ []

unfoldable pub add_urls : List Text → List (ℕ × Media) → List (ℕ × Media) → List (ℕ × Media)
add_urls [] rows ordered = ordered
add_urls (url ∷ urls) rows ordered = add_urls urls rows (add_found (by_url url rows) ordered)

abbrev pub cover_row : Option ℕ → List (ℕ × Media) → List (ℕ × Media)
cover_row cover [] = []
cover_row cover ((i, m) ∷ rows) =
    let rest = cover_row cover rows in if is_cover cover i then (i, m) ∷ [] else rest

-- The files that cannot be published yet, each with its reason.
unfoldable pub rights_blockers : List (ℕ × Media) → List (ℕ × RightsProblem)
rights_blockers [] = []
rights_blockers ((i, m) ∷ rows) =
    let rest = rights_blockers rows in
    elim (rights_problem m) [ none ↦ rest | some p ↦ (i, p) ∷ rest ]

module _ (M : Table Media) where
  -- The cover first, then what the body uses, in its order.
  unfoldable pub media_referenced_by : List Text → Option ℕ → M.Rows → List (ℕ × Media)
  unfolding add_urls
  media_referenced_by urls cover media =
      let rows = M.select (λ i m. any (λ u. text_eq m.url u) urls || is_cover cover i) media in
      add_urls urls rows (cover_row cover rows)

abbrev pub ids : List (ℕ × Media) → List ℕ
ids rows = map (λ (e : ℕ × Media). e.0) rows

module _ (A : Table Article) where
  unfoldable pub link_article_media : ℕ → List (ℕ × Media) → A.Rows → A.Rows
  link_article_media id rows articles = A.update id (λ a. record a { media = ids rows }) articles
