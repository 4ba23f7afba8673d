-- ===== src/Articles/Slugs/Kept.antt =====
-- What becomes of a slug that is typed.
use article.Prelude.{
  ℕ, suc, ◌≤◌, ◌≡◌, refl, [], ◌∷◌, arith, Text, true, false, length, take, all, keep, not, map,
  to_lower, is_slug_char, Bool, ◌||◌, ◌==◌, ap, zero,
}
use article.Articles.Slugs.{
  is_slug, is_slug_from, slugify, dash_runs, drop_dashes, drop_last_dashes, is_accent, ltb,
}

abbrev is_slug_part : ℕ → Bool
is_slug_part c = is_slug_char c || c == b'-'

slug-parts : (b : Bool) (s : Text) → is_slug_from b s ≡ true → all is_slug_part s ≡ true
unfolding is_slug_from
slug-parts b [] h = refl
slug-parts b (c ∷ s) h = ground (arith, slug-parts true s, slug-parts false s)

lower_same : (s : Text) → all is_slug_part s ≡ true → map to_lower s ≡ s
unfolding to_lower
lower_same [] h = refl
lower_same (c ∷ s) h = ground (arith, lower_same s)

keep_same : (s : Text) → all is_slug_part s ≡ true → keep (λ c. not (is_accent c)) s ≡ s
keep_same [] h = refl
keep_same (c ∷ s) h = ground (arith, keep_same s)

-- A run of dashes in a slug is one dash, and stands after a character of it.
runs_same : (b : Bool) (s : Text) → is_slug_from b s ≡ true → dash_runs (not b) s ≡ s
unfolding is_slug_from dash_runs
runs_same b [] h = refl
runs_same true (c ∷ s) h = ground (arith, runs_same true s, runs_same false s)
runs_same false (c ∷ s) h = ground (arith, runs_same true s)

first_same : (s : Text) → is_slug_from false s ≡ true → drop_dashes s ≡ s
unfolding is_slug_from drop_dashes
first_same [] h = refl
first_same (c ∷ s) h = ground arith

last_same : (b : Bool) (s : Text) → is_slug_from b s ≡ true → drop_last_dashes s ≡ s
unfolding is_slug_from drop_last_dashes
last_same b [] h = refl
last_same b (c ∷ s) h = ground (arith, last_same true s, last_same false s)

take_same : (n : ℕ) (s : Text) → length s ≤ n → take n s ≡ s
take_same zero [] h = refl
take_same (suc n) [] h = refl
take_same zero (c ∷ s) h = absurd (omega arith)
take_same (suc n) (c ∷ s) h = ap (λ t. c ∷ t) (take_same n s (omega arith))

start_same : (s : Text) → is_slug_from false s ≡ true → dash_runs false s ≡ s
unfolding is_slug_from dash_runs
start_same [] h = refl
start_same (c ∷ s) h = ground (arith, runs_same true s)

parts-ascii : (s : Text) → all is_slug_part s ≡ true → all (λ c. ltb c 128) s ≡ true
parts-ascii [] h = refl
parts-ascii (c ∷ s) h = ground (arith, parts-ascii s)

-- A slug that the form accepts is its own slug, where lowering and normalising does to ASCII no more than
-- to lower A to Z.
pub slugify_same :
    (normalise : Text → Text) (s : Text)
    → ((t : Text) → all (λ c. ltb c 128) t ≡ true → normalise t ≡ map to_lower t)
    → is_slug s ≡ true
    → slugify normalise s ≡ s
unfolding slugify is_slug
slugify_same normalise s ascii h =
    let g : is_slug_from false s ≡ true = ground arith in
    let p = slug-parts false s g in
    let n = ascii s (parts-ascii s p) in
    rw (n, lower_same s p, keep_same s p, start_same s g, first_same s g, last_same false s g)
      (take_same 160 s (ground arith))
