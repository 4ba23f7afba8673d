-- ===== src/Articles/Gates.antt =====
-- What stands between an article and its readers.
use article.Prelude.{
  some, true, false, refl, ok, [], Bool, List, ℕ, if◌then◌else◌, Text, Option, ◌≡◌, arith, subst,
  sym,
}
use article.Articles.Records.{draft, archived, Article, Follow, ArticleInput, ArticleStatus}
use article.Articles.Acts.{
  creates, updates, publishes, unpublishes, archives, is_shown, find-linked, timed-checked, act,
  find-changed, Act, target,
}
use article.Store.{Table}
use article.Articles.Rights.{Media, RightsProblem}
use article.Issues.Alerts.{NoticeTable}
use article.Articles.Writing.{
  Room, new_article, files_of, edited_article, create_article, update_article, schedules,
}
use article.Auth.Rbac.{SessionUser, succeeded}
use article.Articles.Media.{rights_blockers, ids, link_article_media}
use article.Articles.Publishing.{
  files_in, published_row, with_status, publish_article, unpublish_article, archive_article,
}
use article.Articles.Saves.{Created, Updated, creating-Created, updating-Updated}
use article.Articles.Inversion.{
  Published, Withdrawn, answer-ok, publishing-Published, withdrawing-Withdrawn,
}

passed :
    (b : Bool) (ps : List (ℕ × RightsProblem)) → (if b then ps else []) ≡ [] → b ≡ true → ps ≡ []
passed true ps h e = h
passed false ps h e = absurd (ground arith)

module _ (A : Table Article) (M : Table Media) (F : Table Follow) (N : NoticeTable)
    (normalise sanitize search_text : Text → Text) (media_urls : Text → List Text) where
  -- An article that readers see, or will see, uses no file whose rights are incomplete.
  abbrev IsCleared : Room A M F N → Article → Type 0
  IsCleared room b =
      is_shown b.status ≡ true → rights_blockers (files_in A M F N media_urls b room) ≡ []

  Created-IsCleared :
      (auth : Option SessionUser) (now : ℕ) (input : ArticleInput) (id : ℕ)
      (room room' : Room A M F N)
      → Created A M F N normalise sanitize search_text media_urls auth now input id room room'
      → (b : Article) → A.find id room'.articles ≡ some b
      → IsCleared room b
  unfolding new_article
  Created-IsCleared auth now input id room room' c b f =
      let files = files_of A M F N normalise sanitize search_text media_urls input room in
      let row =
        new_article A M F N normalise sanitize search_text media_urls c.user input c.slug
          c.translation c.schedule in
      let put : A.find id (A.put id row room.articles) ≡ some row =
        ground (arith, A.find-put id id row room.articles) in
      let there = find-linked A id files (A.put id row room.articles) row put in
      let e : b ≡ record row { media = ids files } = ground (arith, c.after, there, f) in
      subst (IsCleared room) (sym e) (λ shown. passed (schedules c.schedule) _ c.cleared (
        ground (
          arith,
          timed-checked input.scheduled_for draft c.user.email_confirmed c.schedule c.timed shown,
        )))

  Updated-IsCleared :
      (auth : Option SessionUser) (now : ℕ) (input : ArticleInput) (id : ℕ)
      (room room' : Room A M F N)
      → Updated A M F N normalise sanitize search_text media_urls auth id now input room room'
      → (b : Article) → A.find id room'.articles ≡ some b
      → IsCleared room b
  unfolding edited_article
  Updated-IsCleared auth now input id room room' u b f =
      let files = files_of A M F N normalise sanitize search_text media_urls input room in
      let edit =
        edited_article A M F N normalise sanitize search_text media_urls input u.slug u.translation
          u.schedule in
      let there =
        find-linked A id files (A.update id edit room.articles) (edit u.row)
          (find-changed A id edit room.articles u.row u.found) in
      let e : b ≡ record (edit u.row) { media = ids files } = ground (arith, u.after, there, f) in
      subst (IsCleared room) (sym e) (λ shown. passed _ _ u.cleared (
        timed-checked input.scheduled_for u.row.status u.user.email_confirmed u.schedule u.timed
          shown))

  Published-IsCleared :
      (auth : Option SessionUser) (id now : ℕ) (room room' : Room A M F N)
      → Published A M F N media_urls auth id now room room'
      → (b : Article) → A.find id room'.articles ≡ some b
      → IsCleared room b
  unfolding published_row
  Published-IsCleared auth id now room room' p b f =
      let files = files_in A M F N media_urls p.row room in
      let linked = record p.row { media = ids files } in
      let there =
        find-changed A id (published_row now) (link_article_media A id files room.articles) linked
          (find-linked A id files room.articles p.row p.found) in
      let e : b ≡ published_row now linked = ground (arith, p.after, there, f) in
      subst (IsCleared room) (sym e) (λ shown. p.cleared)

  Withdrawn-IsCleared :
      (status : ArticleStatus) (auth : Option SessionUser) (id : ℕ) (room room' : Room A M F N)
      → is_shown status ≡ false
      → Withdrawn A M F N status auth id room room'
      → (b : Article) → A.find id room'.articles ≡ some b
      → IsCleared room b
  Withdrawn-IsCleared status auth id room room' n w b f =
      let there = find-changed A id (with_status status) room.articles w.row w.found in
      let e : b ≡ with_status status w.row = ground (arith, w.after, there, f) in
      subst (IsCleared room) (sym e) (λ shown. absurd (ground arith))

  act-IsCleared :
      (x : Act) (auth : Option SessionUser) (room room' : Room A M F N)
      → act A M F N normalise sanitize search_text media_urls x auth room ≡ ok (succeeded room')
      → (b : Article) → A.find (target x) room'.articles ≡ some b
      → IsCleared room b
  unfolding act create_article update_article publish_article unpublish_article archive_article
  act-IsCleared (creates input now id) auth room room' h =
      Created-IsCleared auth now input id room room' (
        creating-Created A M F N normalise sanitize search_text media_urls auth now input id room
          room' (answer-ok _ room' h))
  act-IsCleared (updates input now id) auth room room' h =
      Updated-IsCleared auth now input id room room' (
        updating-Updated A M F N normalise sanitize search_text media_urls auth id now input room
          room' (answer-ok _ room' h))
  act-IsCleared (publishes now id) auth room room' h =
      Published-IsCleared auth id now room room'
        (publishing-Published A M F N media_urls auth id now room room' (answer-ok _ room' h))
  act-IsCleared (unpublishes id) auth room room' h =
      Withdrawn-IsCleared draft auth id room room' refl (
        withdrawing-Withdrawn A M F N media_urls draft "article.unpublish" auth id room room'
          (answer-ok _ room' h))
  act-IsCleared (archives id) auth room room' h =
      Withdrawn-IsCleared archived auth id room room' refl (
        withdrawing-Withdrawn A M F N media_urls archived "article.archive" auth id room room'
          (answer-ok _ room' h))

  -- After an action on an article that answers ok, if the article is published or scheduled, then no file
  -- that its body or cover uses has a rights problem, as the files stood before the action.
  pub act-rights :
      (x : Act) (auth : Option SessionUser) (room room' : Room A M F N) (b : Article)
      → act A M F N normalise sanitize search_text media_urls x auth room ≡ ok (succeeded room')
      → A.find (target x) room'.articles ≡ some b
      → is_shown b.status ≡ true
      → rights_blockers (files_in A M F N media_urls b room) ≡ []
  act-rights x auth room room' b h = act-IsCleared x auth room room' h b
