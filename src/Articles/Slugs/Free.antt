-- ===== src/Articles/Slugs/Free.antt =====
-- The search for a free slug.
use article.Prelude.{
  ℕ, zero, suc, ◌≤◌, ◌<◌, ◌≡◌, refl, List, [], ◌∷◌, arith, Text, text_eq, text_eq_iff, any, All,
  true, false, length, map, if◌then◌else◌, some, ap, Option-cases, Bool-cases, inl, inr, ◌==◌, ◌⊎◌,
}
use article.Store.{Table}
use article.Articles.Slugs.{
  numbered, Bool, Option, unique_slug, unique_slug_from, none, usable, own, root_of, slugify,
}
use article.Articles.Slugs.Decimals.{numbered_inj, numbered_longer}

abbrev among : List Text → Text → Bool
among l x = any (λ y. text_eq x y) l

abbrev AreDistinct : List Text → Type 0
AreDistinct [] = Unit
AreDistinct (x ∷ l) = (among l x ≡ false) × AreDistinct l

remove : Text → List Text → List Text
remove x [] = []
remove x (y ∷ l) = let rest = remove x l in if text_eq x y then l else y ∷ rest

length-remove : (x : Text) (l : List Text) → among l x ≡ true → suc (length (remove x l)) ≡ length l
unfolding remove
length-remove x [] h = absurd (ground arith)
length-remove x (y ∷ l) h = ground (arith, length-remove x l)

among-remove : (x z : Text) (l : List Text) → text_eq z x ≡ false → among (remove x l) z ≡ among l z
unfolding remove
among-remove x z [] h = refl
among-remove x z (y ∷ l) h =
    ground (arith, among-remove x z l h, text_eq_iff x y, text_eq_iff z y, text_eq_iff z x)

All-remove :
    (x : Text) (xs l : List Text)
    → among xs x ≡ false
    → All (λ y. among l y ≡ true) xs
    → All (λ y. among (remove x l) y ≡ true) xs
All-remove x [] l h a = tt
All-remove x (y ∷ xs) l h (p, a) = (
  ground (arith, among-remove x y l, text_eq_iff x y, text_eq_iff y x),
  All-remove x xs l (ground arith) a,
)

-- Distinct texts that are all in a list are no more than the list has.
pigeonhole :
    (xs l : List Text) → AreDistinct xs → All (λ x. among l x ≡ true) xs → length xs ≤ length l
pigeonhole [] l d a = omega arith
pigeonhole (x ∷ xs) l (h, d) (p, a) =
    omega (arith, length-remove x l p, pigeonhole xs (remove x l) d (All-remove x xs l h a))

-- The candidates of a search.
abbrev candidates : ℕ → Text → Text → ℕ → List Text
candidates zero root candidate n = []
candidates (suc fuel) root candidate n = candidate ∷ candidates fuel root (numbered root n) (suc n)

length-candidates : (fuel : ℕ) (root c : Text) (n : ℕ) → length (candidates fuel root c n) ≡ fuel
length-candidates zero root c n = refl
length-candidates (suc fuel) root c n =
    omega (arith, length-candidates fuel root (numbered root n) (suc n))

later_differ :
    (fuel : ℕ) (root : Text) (m n : ℕ)
    → m < n
    → among (candidates fuel root (numbered root n) (suc n)) (numbered root m) ≡ false
later_differ zero root m n h = refl
later_differ (suc fuel) root m n h = ground (
  arith,
  later_differ fuel root m (suc n),
  text_eq_iff (numbered root m) (numbered root n),
  numbered_inj root m n,
)

root_differs :
    (fuel : ℕ) (root : Text) (n : ℕ)
    → among (candidates fuel root (numbered root n) (suc n)) root ≡ false
root_differs zero root n = refl
root_differs (suc fuel) root n = ground (
  arith,
  root_differs fuel root (suc n),
  text_eq_iff root (numbered root n),
  numbered_longer root n,
)

numbers-AreDistinct :
    (fuel : ℕ) (root : Text) (n : ℕ) → AreDistinct (candidates fuel root (numbered root n) (suc n))
numbers-AreDistinct zero root n = tt
numbers-AreDistinct (suc fuel) root n =
    (later_differ fuel root n (suc n) (omega arith), numbers-AreDistinct fuel root (suc n))

candidates-AreDistinct : (fuel : ℕ) (root : Text) → AreDistinct (candidates fuel root root 2)
candidates-AreDistinct zero root = tt
candidates-AreDistinct (suc fuel) root = (root_differs fuel root 2, numbers-AreDistinct fuel root 2)

length-map : {A B : Type 0} (f : A → B) (xs : List A) → length (map f xs) ≡ length xs
length-map f [] = refl
length-map f (x ∷ xs) = ap suc (length-map f xs)

module _ {R : Type 0} (T : Table R) (slug_of : R → Text) where
  -- The slugs of the table.
  abbrev slugs : T.Rows → List Text
  slugs rows = map (λ (e : ℕ × R). slug_of e.1) (T.select (λ _ _. true) rows)

  -- No two rows have one slug.
  abbrev pub IsUnique : T.Rows → Type 0
  IsUnique rows =
      (i j : ℕ) (r s : R)
      → T.find i rows ≡ some r
      → T.find j rows ≡ some s
      → text_eq (slug_of r) (slug_of s) ≡ true
      → i ≡ j

  among-listed :
      (l : List (ℕ × R)) (rows : T.Rows) (i : ℕ) (r : R) (c : Text)
      → T.find i rows ≡ some r
      → text_eq (slug_of r) c ≡ true
      → All (λ (e : ℕ × R). (T.find e.0 rows ≡ some e.1) × (true ≡ true)) l
      → any (λ (e : ℕ × R). e.0 == i) l ≡ true
      → among (map (λ (e : ℕ × R). slug_of e.1) l) c ≡ true
  among-listed [] rows i r c f q a h = absurd (ground arith)
  among-listed ((j, s) ∷ l) rows i r c f q ((g, _), a) h = elim (Bool-cases (j == i)) [
    | inl same ↦
        let e : s ≡ r = ground (arith, g, f) in
        let p : text_eq c (slug_of s) ≡ true =
          ground (arith, text_eq_iff (slug_of r) c, text_eq_iff c (slug_of s), ap slug_of e) in
        rw p refl
    | inr other ↦ ground (arith, among-listed l rows i r c f q a)
  ]

  among-slugs :
      (rows : T.Rows) (i : ℕ) (r : R) (c : Text)
      → T.find i rows ≡ some r
      → text_eq (slug_of r) c ≡ true
      → among (slugs rows) c ≡ true
  among-slugs rows i r c f q =
      among-listed (T.select (λ _ _. true) rows) rows i r c f q (T.select_sound (λ _ _. true) rows)
        (T.select_complete (λ _ _. true) rows i r f refl)

  taken :
      (exclude : Option ℕ) (rows : T.Rows) (c : Text)
      → usable T slug_of exclude (T.first (λ r. text_eq (slug_of r) c) rows) ≡ false
      → among (slugs rows) c ≡ true
  taken exclude rows c h = elim (Option-cases (T.first (λ r. text_eq (slug_of r) c) rows)) [
    | inl free ↦ absurd (ground arith)
    | inr ((i, r), e) ↦
        let (f, q) = T.first-some (λ r. text_eq (slug_of r) c) rows i r e in
        among-slugs rows i r c f q
  ]

  -- A search that finds nothing has met as many taken slugs as it had rounds.
  none-taken :
      (fuel : ℕ) (root c : Text) (n : ℕ) (exclude : Option ℕ) (rows : T.Rows)
      → unique_slug_from T slug_of fuel root c n exclude rows ≡ none
      → All (λ x. among (slugs rows) x ≡ true) (candidates fuel root c n)
  unfolding unique_slug_from
  none-taken zero root c n exclude rows h = tt
  none-taken (suc fuel) root c n exclude rows h =
      elim (Bool-cases (usable T slug_of exclude (T.first (λ r. text_eq (slug_of r) c) rows))) [
        | inl free ↦ absurd (ground arith)
        | inr busy ↦ (
          taken exclude rows c busy,
          none-taken fuel root (numbered root n) (suc n) exclude rows (ground arith),
        )
      ]

  some-usable :
      (fuel : ℕ) (root c : Text) (n : ℕ) (exclude : Option ℕ) (rows : T.Rows) (s : Text)
      → unique_slug_from T slug_of fuel root c n exclude rows ≡ some s
      → usable T slug_of exclude (T.first (λ r. text_eq (slug_of r) s) rows) ≡ true
  unfolding unique_slug_from
  some-usable zero root c n exclude rows s h = absurd (ground arith)
  some-usable (suc fuel) root c n exclude rows s h =
      elim (Bool-cases (usable T slug_of exclude (T.first (λ r. text_eq (slug_of r) c) rows))) [
        | inl free ↦ let e : c ≡ s = ground arith in rw e at free
        | inr busy ↦ some-usable fuel root (numbered root n) (suc n) exclude rows s (ground arith)
      ]

  pub usable_lem :
      (exclude : Option ℕ) (rows : T.Rows) (s : Text)
      → IsUnique rows
      → usable T slug_of exclude (T.first (λ r. text_eq (slug_of r) s) rows) ≡ true
      → (i : ℕ) (r : R) → T.find i rows ≡ some r
      → text_eq (slug_of r) s ≡ true
      → own T slug_of exclude i ≡ true
  usable_lem exclude rows s u h i r f q =
      elim (Option-cases (T.first (λ r. text_eq (slug_of r) s) rows)) [
        | inl free ↦
            absurd (ground (arith, T.first-none (λ r. text_eq (slug_of r) s) rows i r free f))
        | inr ((j, t), e) ↦
            let (g, p) = T.first-some (λ r. text_eq (slug_of r) s) rows j t e in
            let same : text_eq (slug_of r) (slug_of t) ≡ true = ground (
              arith,
              text_eq_iff (slug_of r) s,
              text_eq_iff (slug_of t) s,
              text_eq_iff (slug_of r) (slug_of t),
            ) in
            let k : i ≡ j = u i j r t f g same in
            let o : own T slug_of exclude j ≡ true = rw e at h in rw (← k) at o
      ]

  pub unique_slug-some :
      (normalise : Text → Text) (base : Text) (exclude : Option ℕ) (rows : T.Rows)
      → IsUnique rows
      → (s : Text) × (unique_slug T slug_of normalise base exclude rows ≡ some s)
        × ((i : ℕ) (r : R)
            → T.find i rows ≡ some r
            → text_eq (slug_of r) s ≡ true
            → own T slug_of exclude i ≡ true)
  unfolding unique_slug
  unique_slug-some normalise base exclude rows u =
      let root = root_of (slugify normalise base) in
      let rounds = suc (length (T.select (λ _ _. true) rows)) in
      elim (Option-cases (unique_slug_from T slug_of rounds root root 2 exclude rows)) [
        | inl fails ↦
            let few =
              pigeonhole (candidates rounds root root 2) (slugs rows)
                (candidates-AreDistinct rounds root)
                (none-taken rounds root root 2 exclude rows fails) in
            absurd (
              omega (
                arith,
                few,
                length-candidates rounds root root 2,
                length-map (λ (e : ℕ × R). slug_of e.1) (T.select (λ _ _. true) rows),
              ))
        | inr (s, e) ↦
            (s, e, usable_lem exclude rows s u (some-usable rounds root root 2 exclude rows s e))
      ]

  -- If no two rows have one slug, the search for a free slug, with one round more than there are rows, ends
  -- with a slug, and any row there either has another slug or is the one the search is for.
  pub unique_slug-free :
      (normalise : Text → Text) (base : Text) (exclude : Option ℕ) (rows : T.Rows) (i : ℕ) (r : R)
      → IsUnique rows
      → T.find i rows ≡ some r
      → (s : Text) × (unique_slug T slug_of normalise base exclude rows ≡ some s)
        × ((text_eq (slug_of r) s ≡ false) ⊎ (own T slug_of exclude i ≡ true))
  unique_slug-free normalise base exclude rows i r u f =
      let (s, e, h) = unique_slug-some normalise base exclude rows u in
      elim (Bool-cases (text_eq (slug_of r) s)) [
        | inl y ↦ (s, e, inr (h i r f y))
        | inr n ↦ (s, e, inl n)
      ]
