-- ===== src/Articles/Unique.antt =====
-- No two articles have one slug, whatever the actions do.
use article.Prelude.{
  some, true, false, inl, inr, Text, ℕ, ◌==◌, ◌≡◌, Option, Bool-cases, text_eq, arith, sym, ◌∙◌, ap,
  text_eq_iff, List, ok, none, not, is_empty, ◌&&◌, subst,
}
use article.Articles.Records.{Article, Follow, ArticleStatus, ArticleInput, draft, archived}
use article.Store.{Table}
use article.Articles.Slugs.Free.{IsUnique, unique_slug-some}
use article.Articles.Slugs.{unique_slug, own}
use article.Articles.Rights.{Media}
use article.Issues.Alerts.{NoticeTable}
use article.Articles.Writing.{
  new_article, edited_article, Room, create_article, update_article, files_of,
}
use article.Articles.Acts.{
  act, Act, creates, updates, find-changed, target, find-linked, publishes, unpublishes, archives,
}
use article.Auth.Rbac.{SessionUser, succeeded}
use article.Articles.Inversion.{Withdrawn, answer-ok, publishing-Published, withdrawing-Withdrawn}
use article.Articles.Publishing.{
  with_status, publish_article, unpublish_article, archive_article, published_row, files_in,
}
use article.Articles.Saves.{Created, Updated, creating-Created, updating-Updated}
use article.Articles.Owners.{act-Done}
use article.Articles.Media.{ids, link_article_media}

module _ (A : Table Article) where
  abbrev pub AreUnique : A.Rows → Type 0
  AreUnique t = IsUnique A (λ a. a.slug) t

  -- Only the row with an id may have a slug.
  abbrev IsFree : A.Rows → ℕ → Text → Type 0
  IsFree t id s =
      (j : ℕ) (r : Article) → A.find j t ≡ some r → text_eq r.slug s ≡ true → (id == j) ≡ true

  unique-after :
      (t t' : A.Rows) (id : ℕ) (a : Article)
      → AreUnique t
      → ((j : ℕ) → (id == j) ≡ false → A.find j t' ≡ A.find j t)
      → IsFree t id a.slug
      → A.find id t' ≡ some a
      → AreUnique t'
  unique-after t t' id a u others free own i j r s f g q = elim (Bool-cases (id == i)) [
    | inl x ↦ elim (Bool-cases (id == j)) [
      | inl y ↦ ground arith
      | inr y ↦
          let e : id ≡ i = ground arith in
          let k : a ≡ r = ground (arith, own, f, e) in
          let z : (id == j) ≡ true = free j s (sym (others j y) ∙ g) (
            ground
              (arith, ap (λ a. a.slug) k, text_eq_iff r.slug s.slug, text_eq_iff s.slug a.slug)) in
          absurd (ground arith)
    ]
    | inr x ↦ elim (Bool-cases (id == j)) [
      | inr y ↦ u i j r s (sym (others i x) ∙ f) (sym (others j y) ∙ g) q
      | inl y ↦
          let e : id ≡ j = ground arith in
          let k : a ≡ s = ground (arith, own, g, e) in
          let z : (id == i) ≡ true = free i r (sym (others i x) ∙ f) (
            ground
              (arith, ap (λ a. a.slug) k, text_eq_iff r.slug s.slug, text_eq_iff r.slug a.slug)) in
          absurd (ground arith)
    ]
  ]

  kept-IsFree :
      (t : A.Rows) (id : ℕ) (a : Article) → AreUnique t → A.find id t ≡ some a → IsFree t id a.slug
  kept-IsFree t id a u f j r g q = ground (arith, u j id r a g f q)

  found-IsFree :
      (normalise : Text → Text) (base : Text) (exclude : Option ℕ) (t : A.Rows) (s : Text)
      → AreUnique t
      → unique_slug A (λ a. a.slug) normalise base exclude t ≡ some s
      → (j : ℕ) (r : Article) → A.find j t ≡ some r
      → text_eq r.slug s ≡ true
      → own A (λ a. a.slug) exclude j ≡ true
  found-IsFree normalise base exclude t s u e j r f q =
      let (s', e', h) = unique_slug-some A (λ a. a.slug) normalise base exclude t u in
      let k : s' ≡ s = ground arith in h j r f (rw k q)

module _ (A : Table Article) (M : Table Media) (F : Table Follow) (N : NoticeTable)
    (normalise sanitize search_text : Text → Text) (media_urls : Text → List Text) where
  -- The row of an article after an act, whose slug was free for it.
  abbrev HasFree : Room A M F N → Room A M F N → ℕ → Type 0
  HasFree room room' id =
      (a : Article) × (A.find id room'.articles ≡ some a) × IsFree A room.articles id a.slug

  Created-HasFree :
      (auth : Option SessionUser) (now : ℕ) (input : ArticleInput) (id : ℕ)
      (room room' : Room A M F N)
      → AreUnique A room.articles
      → Created A M F N normalise sanitize search_text media_urls auth now input id room room'
      → HasFree room room' id
  unfolding new_article
  Created-HasFree auth now input id room room' u c =
      let files = files_of A M F N normalise sanitize search_text media_urls input room in
      let row =
        new_article A M F N normalise sanitize search_text media_urls c.user input c.slug
          c.translation c.schedule in
      let put : A.find id (A.put id row room.articles) ≡ some row =
        ground (arith, A.find-put id id row room.articles) in
      let there = find-linked A id files (A.put id row room.articles) row put in
      (
        record row { media = ids files },
        ground (arith, c.after, there),
        λ j r f q.
            absurd (
              ground
                (arith, found-IsFree A normalise _ none room.articles c.slug u c.free j r f q)),
      )

  Updated-HasFree :
      (auth : Option SessionUser) (now : ℕ) (input : ArticleInput) (id : ℕ)
      (room room' : Room A M F N)
      → AreUnique A room.articles
      → Updated A M F N normalise sanitize search_text media_urls auth id now input room room'
      → HasFree room room' id
  unfolding edited_article
  Updated-HasFree auth now input id room room' u c =
      let files = files_of A M F N normalise sanitize search_text media_urls input room in
      let edit =
        edited_article A M F N normalise sanitize search_text media_urls input c.slug c.translation
          c.schedule in
      let there =
        find-linked A id files (A.update id edit room.articles) (edit c.row)
          (find-changed A id edit room.articles c.row c.found) in
      (
        record (edit c.row) { media = ids files },
        ground (arith, c.after, there),
        elim (Bool-cases (not (is_empty input.slug) && not (text_eq input.slug c.row.slug))) [
          | inl y ↦
              found-IsFree A normalise input.slug (some id) room.articles c.slug u
                (ground (arith, c.free))
          | inr n ↦
              let e : c.row.slug ≡ c.slug = ground (arith, c.free) in
              subst (IsFree A room.articles id) e (kept-IsFree A room.articles id c.row u c.found)
        ],
      )

  Withdrawn-HasFree :
      (status : ArticleStatus) (auth : Option SessionUser) (id : ℕ) (room room' : Room A M F N)
      → AreUnique A room.articles
      → Withdrawn A M F N status auth id room room'
      → HasFree room room' id
  Withdrawn-HasFree status auth id room room' u w = (
    with_status status w.row,
    ground (arith, w.after, find-changed A id (with_status status) room.articles w.row w.found),
    kept-IsFree A room.articles id w.row u w.found,
  )

  act-HasFree :
      (x : Act) (auth : Option SessionUser) (room room' : Room A M F N)
      → AreUnique A room.articles
      → act A M F N normalise sanitize search_text media_urls x auth room ≡ ok (succeeded room')
      → HasFree room room' (target x)
  unfolding act create_article update_article publish_article unpublish_article archive_article
      published_row
  act-HasFree (creates input now id) auth room room' u h =
      Created-HasFree auth now input id room room' u (
        creating-Created A M F N normalise sanitize search_text media_urls auth now input id room
          room' (answer-ok _ room' h))
  act-HasFree (updates input now id) auth room room' u h =
      Updated-HasFree auth now input id room room' u (
        updating-Updated A M F N normalise sanitize search_text media_urls auth id now input room
          room' (answer-ok _ room' h))
  act-HasFree (publishes now id) auth room room' u h =
      let p =
        publishing-Published A M F N media_urls auth id now room room' (answer-ok _ room' h) in
      let files = files_in A M F N media_urls p.row room in
      let linked = record p.row { media = ids files } in
      let there =
        find-changed A id (published_row now) (link_article_media A id files room.articles) linked
          (find-linked A id files room.articles p.row p.found) in
      (
        published_row now linked,
        ground (arith, p.after, there),
        kept-IsFree A room.articles id p.row u p.found,
      )
  act-HasFree (unpublishes id) auth room room' u h = Withdrawn-HasFree draft auth id room room' u (
      withdrawing-Withdrawn A M F N media_urls draft "article.unpublish" auth id room room'
        (answer-ok _ room' h))
  act-HasFree (archives id) auth room room' u h = Withdrawn-HasFree archived auth id room room' u (
      withdrawing-Withdrawn A M F N media_urls archived "article.archive" auth id room room'
        (answer-ok _ room' h))

  -- If no two articles have one slug, no two have one after an action that answers ok.
  pub act-AreUnique :
      (x : Act) (auth : Option SessionUser) (room room' : Room A M F N)
      → act A M F N normalise sanitize search_text media_urls x auth room ≡ ok (succeeded room')
      → AreUnique A room.articles
      → AreUnique A room'.articles
  act-AreUnique x auth room room' h u =
      let (a, f, free) = act-HasFree x auth room room' u h in
      let d = act-Done A M F N normalise sanitize search_text media_urls x auth room room' h in
      unique-after A room.articles room'.articles (target x) a u d.others free f
