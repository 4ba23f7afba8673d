-- ===== src/Articles/Owners.antt =====
-- Who changes an article, and what of it stays.
use article.Prelude.{
  some, none, true, false, refl, ok, inl, Option, Bool, ℕ, ◌≡◌, ◌⊎◌, Text, arith, List, ◌==◌, subst,
  ◌&&◌, Bool-cases, inr, Option-cases,
}
use article.Articles.Records.{
  draft, scheduled, live, archived, Article, Follow, ArticleStatus, is_live_status, ArticleInput,
  in_review,
}
use article.Articles.Acts.{
  creates, updates, publishes, unpublishes, archives, Act, target, find-linked, find-linked-other,
  find-changed, find-changed-other, act,
}
use article.Articles.Writing.{
  schedule_fields, Schedule, new_status, Room, edited_article, files_of, new_article,
  create_article, update_article,
}
use article.Store.{Table}
use article.Auth.Rbac.{SessionUser, succeeded}
use article.Articles.Inversion.{
  can_edit, Withdrawn, Published, answer-ok, publishing-Published, withdrawing-Withdrawn,
}
use article.Articles.Rights.{Media}
use article.Issues.Alerts.{NoticeTable}
use article.Articles.Saves.{Created, Updated, creating-Created, updating-Updated}
use article.Articles.Media.{ids, link_article_media}
use article.Articles.Publishing.{
  published_row, with_status, files_in, publish_article, unpublish_article, archive_article,
}

abbrev pub is_new : Act → Bool
is_new (creates input now id) = true
is_new _ = false

abbrev pub is_publishing : Act → Bool
is_publishing (publishes now id) = true
is_publishing _ = false

-- What an act of a user has kept of an article.
pub record Kept (x : Act) (user : SessionUser) (a b : Article) : Type 0 where
  pub allowed : can_edit user a ≡ true
  pub author : b.author_id ≡ a.author_id
  pub published : (a.published_at ≡ none) ⊎ (b.published_at ≡ a.published_at)
  pub shown :
      (is_live_status b.status ≡ false)
      ⊎ ((is_live_status a.status ≡ true)
          ⊎ ((is_publishing x ≡ true) × (user.email_confirmed ≡ true)))

untimed :
    (at : Option ℕ) (s : ArticleStatus) (confirmed : Bool) (schedule : Schedule)
    → schedule_fields at s confirmed ≡ ok schedule
    → is_live_status (new_status schedule s) ≡ true
    → is_live_status s ≡ true
unfolding schedule_fields
untimed at live confirmed schedule e h = refl
untimed at in_review confirmed schedule e h = absurd (ground arith)
untimed at archived confirmed schedule e h = absurd (ground arith)
untimed none draft confirmed schedule e h = absurd (ground arith)
untimed none scheduled confirmed schedule e h = absurd (ground arith)
untimed (some t) draft true schedule e h = absurd (ground arith)
untimed (some t) draft false schedule e h = absurd (ground arith)
untimed (some t) scheduled true schedule e h = absurd (ground arith)
untimed (some t) scheduled false schedule e h = absurd (ground arith)

module _ (A : Table Article) (M : Table Media) (F : Table Follow) (N : NoticeTable)
    (normalise sanitize search_text : Text → Text) (media_urls : Text → List Text) where
  -- What an act that answers ok has done to the rows.
  pub record Done (x : Act) (auth : Option SessionUser) (room room' : Room A M F N) : Type 0 where
    pub user : SessionUser
    pub signed_in : auth ≡ some user
    pub others :
        (j : ℕ) → (target x == j) ≡ false → A.find j room'.articles ≡ A.find j room.articles
    pub own :
        is_new x ≡ false
        → (a : Article) → A.find (target x) room.articles ≡ some a
        → (b : Article) × (A.find (target x) room'.articles ≡ some b) × Kept x user a b

  same_row :
      (a b : Article) (t : A.Rows) (id : ℕ) → A.find id t ≡ some a → A.find id t ≡ some b → a ≡ b
  same_row a b t id f g = ground arith

  Created-Done :
      (auth : Option SessionUser) (now : ℕ) (input : ArticleInput) (id : ℕ)
      (room room' : Room A M F N)
      → Created A M F N normalise sanitize search_text media_urls auth now input id room room'
      → Done (creates input now id) auth room room'
  Created-Done auth now input id room room' c =
      let files = files_of A M F N normalise sanitize search_text media_urls input room in
      let row =
        new_article A M F N normalise sanitize search_text media_urls c.user input c.slug
          c.translation c.schedule in
      record {
        user = c.user;
        signed_in = c.signed_in;
        others = λ j n. ground (
          arith,
          c.after,
          find-linked-other A id j files (A.put id row room.articles) n,
          A.find-put j id row room.articles,
        );
        own = λ n. absurd (ground arith);
      }

  Updated-Done :
      (auth : Option SessionUser) (now : ℕ) (input : ArticleInput) (id : ℕ)
      (room room' : Room A M F N)
      → Updated A M F N normalise sanitize search_text media_urls auth id now input room room'
      → Done (updates input now id) auth room room'
  unfolding edited_article
  Updated-Done auth now input id room room' u =
      let files = files_of A M F N normalise sanitize search_text media_urls input room in
      let edit =
        edited_article A M F N normalise sanitize search_text media_urls input u.slug u.translation
          u.schedule in
      let there =
        find-linked A id files (A.update id edit room.articles) (edit u.row)
          (find-changed A id edit room.articles u.row u.found) in
      record {
        user = u.user;
        signed_in = u.signed_in;
        others = λ j n. ground (
          arith,
          u.after,
          find-linked-other A id j files (A.update id edit room.articles) n,
          find-changed-other A id j edit room.articles n,
        );
        own = λ _ a f.
            subst
              (λ a.
                (b : Article) × (A.find id room'.articles ≡ some b)
                × Kept (updates input now id) u.user a b)
              (same_row u.row a room.articles id u.found f)
              (
                record (edit u.row) { media = ids files },
                ground (arith, u.after, there),
                record {
                  allowed = u.allowed;
                  author = refl;
                  published = inr refl;
                  shown = elim (Bool-cases (is_live_status (new_status u.schedule u.row.status))) [
                    | inl y ↦ inr (
                        inl (
                          untimed input.scheduled_for u.row.status u.user.email_confirmed u.schedule
                            u.timed y))
                    | inr n ↦ inl n
                  ];
                },
              );
      }

  Published-Done :
      (auth : Option SessionUser) (id now : ℕ) (room room' : Room A M F N)
      → Published A M F N media_urls auth id now room room'
      → Done (publishes now id) auth room room'
  unfolding published_row
  Published-Done auth id now room room' p =
      let files = files_in A M F N media_urls p.row room in
      let linked = record p.row { media = ids files } in
      let there =
        find-changed A id (published_row now) (link_article_media A id files room.articles) linked
          (find-linked A id files room.articles p.row p.found) in
      record {
        user = p.user;
        signed_in = p.signed_in;
        others = λ j n. ground (
          arith,
          p.after,
          find-changed-other A id j (published_row now)
              (link_article_media A id files room.articles) n,
          find-linked-other A id j files room.articles n,
        );
        own = λ _ a f.
            subst
              (λ a.
                (b : Article) × (A.find id room'.articles ≡ some b)
                × Kept (publishes now id) p.user a b)
              (same_row p.row a room.articles id p.found f)
              (
                published_row now linked,
                ground (arith, p.after, there),
                record {
                  allowed = p.allowed;
                  author = refl;
                  published = elim (Option-cases p.row.published_at) [
                    | inl e ↦ inl e
                    | inr (t, e) ↦ inr (rw e refl)
                  ];
                  shown = inr (inr (refl, p.confirmed));
                },
              );
      }

  Withdrawn-Done :
      (x : Act) (status : ArticleStatus) (auth : Option SessionUser) (room room' : Room A M F N)
      → is_live_status status ≡ false
      → Withdrawn A M F N status auth (target x) room room'
      → Done x auth room room'
  Withdrawn-Done x status auth room room' n w =
      let there = find-changed A (target x) (with_status status) room.articles w.row w.found in
      record {
        user = w.user;
        signed_in = w.signed_in;
        others = λ j n. ground (
          arith,
          w.after,
          find-changed-other A (target x) j (with_status status) room.articles n,
        );
        own = λ _ a f.
            subst
              (λ a. (b : Article) × (A.find (target x) room'.articles ≡ some b) × Kept x w.user a b)
              (same_row w.row a room.articles (target x) w.found f)
              (
                with_status status w.row,
                ground (arith, w.after, there),
                record { allowed = w.allowed; author = refl; published = inr refl; shown = inl n },
              );
      }

  pub act-Done :
      (x : Act) (auth : Option SessionUser) (room room' : Room A M F N)
      → act A M F N normalise sanitize search_text media_urls x auth room ≡ ok (succeeded room')
      → Done x auth room room'
  unfolding act create_article update_article publish_article unpublish_article archive_article
  act-Done (creates input now id) auth room room' h = Created-Done auth now input id room room' (
      creating-Created A M F N normalise sanitize search_text media_urls auth now input id room
        room' (answer-ok _ room' h))
  act-Done (updates input now id) auth room room' h = Updated-Done auth now input id room room' (
      updating-Updated A M F N normalise sanitize search_text media_urls auth id now input room
        room' (answer-ok _ room' h))
  act-Done (publishes now id) auth room room' h =
      Published-Done auth id now room room'
        (publishing-Published A M F N media_urls auth id now room room' (answer-ok _ room' h))
  act-Done (unpublishes id) auth room room' h =
      Withdrawn-Done (unpublishes id) draft auth room room' refl (
        withdrawing-Withdrawn A M F N media_urls draft "article.unpublish" auth id room room'
          (answer-ok _ room' h))
  act-Done (archives id) auth room room' h =
      Withdrawn-Done (archives id) archived auth room room' refl (
        withdrawing-Withdrawn A M F N media_urls archived "article.archive" auth id room room'
          (answer-ok _ room' h))

  -- After an action that answers ok, every article that was there, but for a row that creating replaces under
  -- its id, is there and is either the same, or the action was that of a signed-in user who is of the
  -- administrator tier or its author, whatever permissions they hold; it then has the author it had and the
  -- publication date it had if it had one, and it is published only if it was before or if the action was
  -- publishing by a user with a confirmed address.
  pub act-Kept :
      (x : Act) (auth : Option SessionUser) (room room' : Room A M F N) (j : ℕ) (a : Article)
      → act A M F N normalise sanitize search_text media_urls x auth room ≡ ok (succeeded room')
      → A.find j room.articles ≡ some a
      → (is_new x && target x == j) ≡ false
      → (b : Article) × (A.find j room'.articles ≡ some b)
        × ((a ≡ b) ⊎ ((user : SessionUser) × (auth ≡ some user) × Kept x user a b))
  act-Kept x auth room room' j a h f n =
      let d = act-Done x auth room room' h in
      elim (Bool-cases (target x == j)) [
        | inr other ↦ (a, ground (arith, d.others j other), inl refl)
        | inl same ↦
            let e : target x ≡ j = ground arith in
            let (b, g, k) = d.own (ground arith) a (ground arith) in
            (b, ground arith, inr (d.user, d.signed_in, k))
      ]
