-- ===== src/Articles/Sources/Numbers.antt =====
-- The references of an article are numbered 1, 2, 3 and so on.
use article.Prelude.{
  some, none, true, false, inl, inr, [], ◌∷◌, ◌≡◌, All, ◌==◌, ◌≤◌, any, arith, ◌<◌, ◌+◌, Bool-cases,
  ◌⊎◌, ap, sym, ◌∙◌,
}
use article.Store.{Table}
use article.Articles.Sources.{Reference, ℕ, List, Bool, last_position, leb}

module _ (R : Table Reference) where
  -- Positions start at 1, none is there twice for one article, and the one before any later one is there.
  pub record AreNumbered (t : R.Rows) : Type 0 where
    pub positive : (i : ℕ) (r : Reference) → R.find i t ≡ some r → 1 ≤ r.position
    pub distinct :
        (i j : ℕ) (r s : Reference)
        → R.find i t ≡ some r
        → R.find j t ≡ some s
        → r.article_id ≡ s.article_id
        → r.position ≡ s.position
        → i ≡ j
    pub before :
        (i : ℕ) (r : Reference)
        → R.find i t ≡ some r
        → 1 < r.position
        → (j : ℕ) × (s : Reference) × (R.find j t ≡ some s)
          × (s.article_id ≡ r.article_id)
          × (s.position + 1 ≡ r.position)

  last_position-max :
      (rows : List (ℕ × Reference)) (t : R.Rows) (i : ℕ) (r : Reference) (p : ℕ → Reference → Bool)
      → All (λ (e : ℕ × Reference). (R.find e.0 t ≡ some e.1) × (p e.0 e.1 ≡ true)) rows
      → R.find i t ≡ some r
      → any (λ (e : ℕ × Reference). e.0 == i) rows ≡ true
      → r.position ≤ last_position rows
  last_position-max [] t i r p a f h = absurd (ground arith)
  last_position-max ((j, s) ∷ rows) t i r p ((g, _), a) f h = elim (Bool-cases (j == i)) [
    | inl same ↦
        let e : j ≡ i = ground arith in
        let k : s ≡ r = ground (arith, g, f, e) in rw (← k) (omega arith)
    | inr other ↦ omega (arith, last_position-max rows t i r p a f (ground arith))
  ]

  last_position-found :
      (rows : List (ℕ × Reference)) (t : R.Rows) (id : ℕ)
      → All
          (λ (e : ℕ × Reference). (R.find e.0 t ≡ some e.1) × ((e.1.article_id == id) ≡ true))
          rows
      → 0 < last_position rows
      → (j : ℕ) × (s : Reference) × (R.find j t ≡ some s)
        × (s.article_id ≡ id)
        × (s.position ≡ last_position rows)
  last_position-found [] t id a h = absurd (omega arith)
  last_position-found ((j, s) ∷ rows) t id ((g, q), a) h =
      elim (Bool-cases (leb (last_position rows) s.position)) [
        | inl big ↦ (j, s, g, ground arith, ground arith)
        | inr small ↦
            let (k, r, f, e, m) = last_position-found rows t id a (ground arith) in
            (k, r, f, e, ground arith)
      ]

  abbrev same_article_as : ℕ → ℕ → Reference → Bool
  same_article_as id _ s = s.article_id == id

  position-last :
      (t : R.Rows) (id i : ℕ) (s : Reference)
      → R.find i t ≡ some s
      → s.article_id ≡ id
      → s.position ≤ last_position (R.select (same_article_as id) t)
  position-last t id i s f e =
      last_position-max (R.select (same_article_as id) t) t i s (same_article_as id)
        (R.select_sound (same_article_as id) t) f
        (R.select_complete (same_article_as id) t i s f (ground arith))

  find-new :
      (t : R.Rows) (id i : ℕ) (r s : Reference)
      → R.find i (R.put id r t) ≡ some s
      → ((id ≡ i) × (r ≡ s)) ⊎ (((id == i) ≡ false) × (R.find i t ≡ some s))
  find-new t id i r s f = elim (Bool-cases (id == i)) [
    | inl e ↦ inl (ground arith, ground (arith, R.find-put i id r t))
    | inr e ↦ inr (e, ground (arith, R.find-put i id r t))
  ]

  find-old :
      (t : R.Rows) (id i : ℕ) (r s : Reference)
      → R.find id t ≡ none
      → R.find i t ≡ some s
      → R.find i (R.put id r t) ≡ some s
  find-old t id i r s n f = elim (Bool-cases (id == i)) [
    | inl e ↦ let k : id ≡ i = ground arith in absurd (ground (arith, k))
    | inr e ↦ ground (arith, R.find-put i id r t)
  ]

  pub put-AreNumbered :
      (t : R.Rows) (id : ℕ) (r : Reference)
      → R.find id t ≡ none
      → AreNumbered t
      → r.position ≡ last_position (R.select (same_article_as r.article_id) t) + 1
      → AreNumbered (R.put id r t)
  put-AreNumbered t id r new n p = record {
    positive = λ i s f. elim (find-new t id i r s f) [
      | inl (e, k) ↦ rw (← k) (omega arith)
      | inr (e, g) ↦ n.positive i s g
    ];
    distinct = λ i j s u f g a q. elim (find-new t id i r s f) [
      | inl (e, k) ↦ elim (find-new t id j r u g) [
        | inl (e', k') ↦ ground arith
        | inr (e', g') ↦ absurd (
            ground (
              arith,
              ap (λ r. r.position) k,
              position-last t r.article_id j u g' (sym a ∙ ap (λ r. r.article_id) (sym k)),
            ))
      ]
      | inr (e, f') ↦ elim (find-new t id j r u g) [
        | inl (e', k') ↦ absurd (
            ground (
              arith,
              ap (λ r. r.position) k',
              position-last t r.article_id i s f' (a ∙ ap (λ r. r.article_id) (sym k')),
            ))
        | inr (e', g') ↦ n.distinct i j s u f' g' a q
      ]
    ];
    before = λ i s f above. elim (find-new t id i r s f) [
      | inl (e, k) ↦
          let (j, u, g, a, q) =
            last_position-found (R.select (same_article_as r.article_id) t) t r.article_id
              (R.select_sound (same_article_as r.article_id) t)
              (ground (arith, ap (λ r. r.position) k)) in
          (
            j,
            u,
            find-old t id j r u new g,
            a ∙ ap (λ r. r.article_id) k,
            ground (arith, ap (λ r. r.position) k),
          )
      | inr (e, f') ↦
          let (j, u, g, a, q) = n.before i s f' above in (j, u, find-old t id j r u new g, a, q)
    ];
  }
