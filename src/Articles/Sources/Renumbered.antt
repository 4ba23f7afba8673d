-- ===== src/Articles/Sources/Renumbered.antt =====
-- Renumbering the references behind one that is removed.
use article.Prelude.{
  some, false, inl, inr, if◌then◌else◌, ◌==◌, ◌&&◌, ◌≤◌, ◌≡◌, ◌+◌, arith, ◌<◌, Bool-cases, ◌-◌, ◌≢◌,
  ap, Option-cases, ◌∙◌, subst, sym,
}
use article.Articles.Sources.Numbers.{AreNumbered}
use article.Store.{Table}
use article.Articles.Sources.{
  Reference, Article, ArticleLink, ℕ, ltb, renumbered, step_down, is_after,
}

module _ (R : Table Reference) where
  -- What renumbering makes of a row that stays.
  abbrev moved : Reference → Reference → Reference
  moved gone r =
      if r.article_id == gone.article_id && ltb gone.position r.position then step_down r else r

  module _ (A : Table Article) (L : Table ArticleLink) where
    find-kept :
        (t : R.Rows) (id i : ℕ) (gone r : Reference)
        → R.find i t ≡ some r
        → (id == i) ≡ false
        → R.find i (renumbered A R L id gone t) ≡ some (moved gone r)
    find-kept t id i gone r f n = ground (
      arith,
      R.find-update_many i (is_after A R L gone) step_down (R.delete id t),
      R.find-delete i id t,
    )

    find-moved :
        (t : R.Rows) (id i : ℕ) (gone s : Reference)
        → R.find i (renumbered A R L id gone t) ≡ some s
        → (r : Reference) × (R.find i t ≡ some r) × ((id == i) ≡ false) × (s ≡ moved gone r)
    find-moved t id i gone s f =
        let u = R.find-update_many i (is_after A R L gone) step_down (R.delete id t) in
        let d = R.find-delete i id t in
        elim (Bool-cases (id == i)) [
          | inl e ↦ absurd (ground (arith, u, d))
          | inr e ↦ elim (Option-cases (R.find i t)) [
            | inl g ↦ absurd (ground (arith, u, d))
            | inr (r, g) ↦ (r, g, e, ground (arith, u, d))
          ]
        ]

    moved-article : (gone r : Reference) → (moved gone r).article_id ≡ r.article_id
    moved-article gone r = ground arith

    moved-position :
        (gone r : Reference)
        → (moved gone r).position ≡ (
            if r.article_id == gone.article_id && ltb gone.position r.position
            then r.position - 1
            else r.position)
    moved-position gone r = ground arith

    -- The row before one that moves moves with it, unless it is the one that goes.
    moved-next :
        (gone r v : Reference)
        → v.article_id ≡ r.article_id
        → v.position + 1 ≡ r.position
        → 1 ≤ v.position
        → (v.article_id ≡ gone.article_id → v.position ≢ gone.position)
        → (moved gone v).position + 1 ≡ (moved gone r).position
    moved-next gone r v a q p n = ground (arith, moved-position gone r, moved-position gone v, n)

    moved-gone :
        (gone r v : Reference)
        → gone.article_id ≡ r.article_id
        → gone.position + 1 ≡ r.position
        → v.position + 1 ≡ gone.position
        → (moved gone v).position + 1 ≡ (moved gone r).position
    moved-gone gone r v a q p = ground (arith, moved-position gone r, moved-position gone v)

    moved_le : (gone r : Reference) → (moved gone r).position ≤ r.position
    moved_le gone r = ground (arith, moved-position gone r)

    gone_next :
        (gone r : Reference)
        → gone.article_id ≡ r.article_id
        → gone.position + 1 ≡ r.position
        → 1 < (moved gone r).position
        → 1 < gone.position
    gone_next gone r a q h = ground (arith, moved-position gone r)

    not_gone :
        (t : R.Rows) (id m : ℕ) (gone w : Reference)
        → R.find id t ≡ some gone
        → R.find m t ≡ some w
        → w.position + 1 ≡ gone.position
        → (id == m) ≡ false
    not_gone t id m gone w g f p = elim (Bool-cases (id == m)) [
      | inr n ↦ n
      | inl y ↦
          let e : id ≡ m = ground arith in
          let k : gone ≡ w = ground (arith, g, f, e) in
          let q = ap (λ r. r.position) k in absurd (omega arith)
    ]

    before-moved :
        (t : R.Rows) (id i : ℕ) (gone r : Reference)
        → R.find id t ≡ some gone
        → AreNumbered R t
        → R.find i t ≡ some r
        → 1 < (moved gone r).position
        → (j : ℕ) × (s : Reference) × (R.find j (renumbered A R L id gone t) ≡ some s)
          × (s.article_id ≡ r.article_id)
          × (s.position + 1 ≡ (moved gone r).position)
    before-moved t id i gone r g n h above =
        let (j, v, h', a, q) = n.before i r h (omega (arith, moved_le gone r)) in
        elim (Bool-cases (id == j)) [
          | inr y ↦ (
            j,
            moved gone v,
            find-kept t id j gone v h' y,
            moved-article gone v ∙ a,
            moved-next gone r v a q (n.positive j v h')
                (λ b p. absurd (ground (arith, n.distinct j id v gone h' g b p))),
          )
          | inl y ↦
              let e : id ≡ j = ground arith in
              let k : v ≡ gone = ground (arith, h', g, e) in
              let ka : gone.article_id ≡ r.article_id = sym (ap (λ r. r.article_id) k) ∙ a in
              let kq : gone.position + 1 ≡ r.position = sym (ap (λ r. r.position + 1) k) ∙ q in
              let (m, w, l, b, p) = n.before id gone g (gone_next gone r ka kq above) in
              (
                m,
                moved gone w,
                find-kept t id m gone w l (not_gone t id m gone w g l p),
                moved-article gone w ∙ b ∙ ka,
                moved-gone gone r w ka kq p,
              )
        ]

    pub renumbered-AreNumbered :
        (t : R.Rows) (id : ℕ) (gone : Reference)
        → R.find id t ≡ some gone
        → AreNumbered R t
        → AreNumbered R (renumbered A R L id gone t)
    renumbered-AreNumbered t id gone g n = record {
      positive = λ i s f.
          let (r, h, _, e) = find-moved t id i gone s f in
          ground (
            arith,
            ap (λ r. r.position) e,
            moved-position gone r,
            n.positive i r h,
            n.positive id gone g,
          );
      distinct = λ i j s u f f' a q.
          let (r, h, x, e) = find-moved t id i gone s f in
          let (v, h', x', e') = find-moved t id j gone u f' in
          let same : r.article_id ≡ v.article_id = ground (
            arith,
            ap (λ r. r.article_id) e,
            ap (λ r. r.article_id) e',
            moved-article gone r,
            moved-article gone v,
          ) in
          n.distinct i j r v h h' same (
            ground (
              arith,
              ap (λ r. r.position) e,
              ap (λ r. r.position) e',
              moved-position gone r,
              moved-position gone v,
              n.distinct i id r gone h g,
              n.distinct j id v gone h' g,
              n.positive i r h,
              n.positive j v h',
            ));
      before = λ i s f above.
          let (r, h, x, e) = find-moved t id i gone s f in
          let (j, v, g', a, q) =
            before-moved t id i gone r g n h (subst (λ s. 1 < s.position) e above) in
          (
            j,
            v,
            g',
            a ∙ sym (ap (λ r. r.article_id) e ∙ moved-article gone r),
            q ∙ sym (ap (λ r. r.position) e),
          );
    }
