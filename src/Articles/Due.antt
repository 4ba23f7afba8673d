-- ===== src/Articles/Due.antt =====
-- The pass of src/lib/scheduledPublishing.ts over the articles that are due.
use article.Prelude.{
  true, false, refl, inl, inr, [], ◌∷◌, List, Bool, ℕ, ◌≡◌, Text, if◌then◌else◌, List-cases, arith,
  ◌&&◌, All, some, ◌==◌, any, Bool-cases, ◌∙◌, ◌+◌, ◌≤◌, ltb, none,
}
use article.Articles.Publishing.{
  due_row, notify_breaking_news, release, is_due, files_in, release_all, publish_due_articles,
  or_at,
}
use article.Store.{Table}
use article.Articles.Records.{Article, Follow, live}
use article.Articles.Rights.{Media}
use article.Issues.Alerts.{NoticeTable}
use article.Articles.Writing.{Room}
use article.Articles.Media.{rights_blockers}

abbrev none_left {ℓ} : {X : Type ℓ} → List X → Bool
none_left [] = true
none_left (x ∷ xs) = false

due_row_twice : (now : ℕ) (a : Article) → due_row now (due_row now a) ≡ due_row now a
unfolding due_row
due_row_twice now a = refl

module _ (A : Table Article) (M : Table Media) (F : Table Follow) (N : NoticeTable)
    (media_urls : Text → List Text) where
  abbrev is_clear : Room A M F N → Article → Bool
  is_clear room a = none_left (rights_blockers (files_in A M F N media_urls a room))

  -- What a pass makes of an article.
  abbrev pub passed_row : ℕ → Room A M F N → Article → Article
  passed_row now room a =
      if is_due now a && is_clear room a
      then record a {
        status = live;
        published_at = some (or_at a.published_at (or_at a.scheduled_for now));
        scheduled_for = none;
      }
      else a

  release-media :
      (now id : ℕ) (a : Article) (room : Room A M F N)
      → (release A M F N media_urls now id a room).media ≡ room.media
  unfolding notify_breaking_news
  release-media now id a room =
      elim (List-cases (rights_blockers (files_in A M F N media_urls a room))) [
        | inl e ↦ ground (arith, e)
        | inr ((p, ps), e) ↦ ground (arith, e)
      ]

  release-articles :
      (now id : ℕ) (a : Article) (room : Room A M F N)
      → (release A M F N media_urls now id a room).articles
        ≡ (if is_clear room a then A.update id (due_row now) room.articles else room.articles)
  unfolding notify_breaking_news
  release-articles now id a room =
      elim (List-cases (rights_blockers (files_in A M F N media_urls a room))) [
        | inl e ↦ ground (arith, e)
        | inr ((p, ps), e) ↦ ground (arith, e)
      ]

  clear_same :
      (room room' : Room A M F N) (a : Article)
      → room'.media ≡ room.media
      → is_clear room' a ≡ is_clear room a
  clear_same room room' a e = rw e refl

  find-release :
      (now id j : ℕ) (a b : Article) (room : Room A M F N)
      → A.find j room.articles ≡ some b
      → A.find j (release A M F N media_urls now id a room).articles
        ≡ some (if (id == j) && is_clear room a then due_row now b else b)
  find-release now id j a b room f = elim (Bool-cases (is_clear room a)) [
    | inl e ↦
        ground
          (arith, release-articles now id a room, A.find-update j id (due_row now) room.articles)
    | inr e ↦ ground (arith, release-articles now id a room)
  ]

  -- A row that the pass has changed stays as it is.
  release_all-stays :
      (now j : ℕ) (a : Article) (due : List (ℕ × Article)) (room : Room A M F N)
      → A.find j room.articles ≡ some (due_row now a)
      → A.find j (release_all A M F N media_urls now due room).articles ≡ some (due_row now a)
  unfolding release_all
  release_all-stays now j a [] room f = f
  release_all-stays now j a ((id, b) ∷ due) room f =
      release_all-stays now j a due (release A M F N media_urls now id b room)
        (ground (arith, find-release now id j b (due_row now a) room f, due_row_twice now a))

  find-release_all :
      (now j : ℕ) (a : Article) (start : Room A M F N) (due : List (ℕ × Article))
      (room : Room A M F N)
      → All (λ (e : ℕ × Article). A.find e.0 start.articles ≡ some e.1) due
      → A.find j start.articles ≡ some a
      → A.find j room.articles ≡ some a
      → room.media ≡ start.media
      → A.find j (release_all A M F N media_urls now due room).articles
        ≡ some (
            if any (λ (e : ℕ × Article). e.0 == j) due && is_clear start a
            then due_row now a
            else a)
  unfolding release_all
  find-release_all now j a start [] room s g f m = f
  find-release_all now j a start ((id, b) ∷ due) room (p, s) g f m =
      let next = release A M F N media_urls now id b room in
      let there = find-release now id j b a room f in
      let ih = find-release_all now j a start due next s g in
      let same_media : next.media ≡ start.media = release-media now id b room ∙ m in
      elim (Bool-cases (id == j)) [
        | inr other ↦ ground (arith, ih (ground (arith, there)) same_media)
        | inl same ↦
            let e : id ≡ j = ground arith in
            let q : b ≡ a = ground (arith, p, g, e) in
            let c : is_clear room b ≡ is_clear start a = rw q (clear_same start room a m) in
            elim (Bool-cases (is_clear start a)) [
              | inl y ↦
                  ground (arith, release_all-stays now j a due next (ground (arith, there, c)))
              | inr n ↦ ground (arith, ih (ground (arith, there, c)) same_media)
            ]
      ]

  sound-listed :
      (p : ℕ → Article → Bool) (t : A.Rows) (due : List (ℕ × Article))
      → All (λ (e : ℕ × Article). (A.find e.0 t ≡ some e.1) × (p e.0 e.1 ≡ true)) due
      → All (λ (e : ℕ × Article). A.find e.0 t ≡ some e.1) due
  sound-listed p t [] s = tt
  sound-listed p t (e ∷ due) ((f, _), s) = (f, sound-listed p t due s)

  listed-meets :
      (p : ℕ → Article → Bool) (t : A.Rows) (j : ℕ) (a : Article) (due : List (ℕ × Article))
      → All (λ (e : ℕ × Article). (A.find e.0 t ≡ some e.1) × (p e.0 e.1 ≡ true)) due
      → A.find j t ≡ some a
      → any (λ (e : ℕ × Article). e.0 == j) due ≡ true
      → p j a ≡ true
  listed-meets p t j a [] s f h = absurd (ground arith)
  listed-meets p t j a ((id, b) ∷ due) ((g, q), s) f h = elim (Bool-cases (id == j)) [
    | inl same ↦
        let e : id ≡ j = ground arith in let r : b ≡ a = ground (arith, g, f, e) in rw (e, r) at q
    | inr other ↦ listed-meets p t j a due s f (ground arith)
  ]

  listed-due :
      (now j : ℕ) (a : Article) (t : A.Rows)
      → A.find j t ≡ some a
      → any (λ (e : ℕ × Article). e.0 == j) (A.select (λ _ a. is_due now a) t) ≡ is_due now a
  listed-due now j a t f = elim (Bool-cases (is_due now a)) [
    | inl y ↦ rw y (A.select_complete (λ _ a. is_due now a) t j a f y)
    | inr n ↦
        elim (Bool-cases (any (λ (e : ℕ × Article). e.0 == j) (A.select (λ _ a. is_due now a) t))) [
          | inr m ↦ rw (n, m) refl
          | inl m ↦
              let q =
                listed-meets (λ _ a. is_due now a) t j a (A.select (λ _ a. is_due now a) t)
                  (A.select_sound (λ _ a. is_due now a) t) f m in
              absurd (ground arith)
        ]
  ]

  -- A pass, a minute or more after the last one, leaves every article as it was, but for those that are
  -- scheduled for a time that has come and use no file with a rights problem: these it publishes, with the
  -- date they had, or else the time they were scheduled for.
  pub publish_due_articles-passed_row :
      (last_run now : ℕ) (room : Room A M F N) (j : ℕ) (a : Article)
      → last_run + 60000 ≤ now
      → A.find j room.articles ≡ some a
      → A.find j (publish_due_articles A M F N media_urls last_run now room).1.articles
        ≡ some (passed_row now room a)
  unfolding publish_due_articles due_row
  publish_due_articles-passed_row last_run now room j a late f =
      let l : ltb now (last_run + 60000) ≡ false = ground arith in
      rw
        (
          l,
          find-release_all now j a room (A.select (λ _ a. is_due now a) room.articles) room
              (sound-listed (λ _ a. is_due now a) room.articles _
                (A.select_sound (λ _ a. is_due now a) room.articles))
              f f refl,
          listed-due now j a room.articles f,
        )
        refl
