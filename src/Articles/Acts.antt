-- ===== src/Articles/Acts.antt =====
-- The actions of src/app/(dashboard)/dashboard/articles/actions.ts on an article as one step, and what it
-- leaves in the rows.
use article.Articles.Writing.{
  Room, create_article, update_article, schedule_fields, Schedule, new_status, schedules,
}
use article.Articles.Publishing.{publish_article, unpublish_article, archive_article}
use article.Articles.Records.{
  ArticleInput, ArticleStatus, Article, is_live_status, Follow, is_scheduled, ArticleError, draft,
  scheduled, live, archived, in_review,
}
use article.Prelude.{
  ℕ, Option, Bool, ◌==◌, ◌≡◌, List, ◌||◌, some, ok, false, arith, Text, true, Result, none,
}
use article.Store.{Table}
use article.Articles.Media.{link_article_media, ids}
use article.Articles.Rights.{Media}
use article.Issues.Alerts.{NoticeTable}
use article.Auth.Rbac.{SessionUser, Thrown, Answer}

-- What is asked for: with the clock where it is read, and the id of a new row.
pub data Act : Type 0 where
  creates : ArticleInput → ℕ → ℕ → Act
  updates : ArticleInput → ℕ → ℕ → Act
  publishes : ℕ → ℕ → Act
  unpublishes archives : ℕ → Act

-- The article that it is about.
abbrev pub target : Act → ℕ
target (creates input now id) = id
target (updates input now id) = id
target (publishes now id) = id
target (unpublishes id) = id
target (archives id) = id

-- Readers see it, or will without anybody doing anything.
abbrev pub is_shown : ArticleStatus → Bool
is_shown s = is_live_status s || is_scheduled s

module _ (A : Table Article) where
  pub find-linked :
      (id : ℕ) (files : List (ℕ × Media)) (t : A.Rows) (a : Article)
      → A.find id t ≡ some a
      → A.find id (link_article_media A id files t) ≡ some (record a { media = ids files })
  unfolding link_article_media
  find-linked id files t a h =
      ground (arith, A.find-update id id (λ a. record a { media = ids files }) t)

  pub find-linked-other :
      (id j : ℕ) (files : List (ℕ × Media)) (t : A.Rows)
      → (id == j) ≡ false
      → A.find j (link_article_media A id files t) ≡ A.find j t
  unfolding link_article_media
  find-linked-other id j files t h =
      ground (arith, A.find-update j id (λ a. record a { media = ids files }) t)

  pub find-changed :
      (id : ℕ) (f : Article → Article) (t : A.Rows) (a : Article)
      → A.find id t ≡ some a
      → A.find id (A.update id f t) ≡ some (f a)
  find-changed id f t a h = ground (arith, A.find-update id id f t)

  pub find-changed-other :
      (id j : ℕ) (f : Article → Article) (t : A.Rows)
      → (id == j) ≡ false
      → A.find j (A.update id f t) ≡ A.find j t
  find-changed-other id j f t h = ground (arith, A.find-update j id f t)

module _ (A : Table Article) (M : Table Media) (F : Table Follow) (N : NoticeTable)
    (normalise sanitize search_text : Text → Text) (media_urls : Text → List Text) where
  unfoldable pub act :
      Act → Option SessionUser → Room A M F N → Result Thrown (Answer ArticleError (Room A M F N))
  act (creates input now id) auth room =
      create_article A M F N normalise sanitize search_text media_urls auth now input id room
  act (updates input now id) auth room =
      update_article A M F N normalise sanitize search_text media_urls auth id now input room
  act (publishes now id) auth room = publish_article A M F N media_urls auth id now room
  act (unpublishes id) auth room = unpublish_article A M F N media_urls auth id room
  act (archives id) auth room = archive_article A M F N media_urls auth id room

pub timed-checked :
    (at : Option ℕ) (s : ArticleStatus) (confirmed : Bool) (schedule : Schedule)
    → schedule_fields at s confirmed ≡ ok schedule
    → is_shown (new_status schedule s) ≡ true
    → (schedules schedule || is_live_status s) ≡ true
unfolding schedule_fields
timed-checked at live confirmed schedule e h = ground arith
timed-checked at in_review confirmed schedule e h = absurd (ground arith)
timed-checked at archived confirmed schedule e h = absurd (ground arith)
timed-checked none draft confirmed schedule e h = absurd (ground arith)
timed-checked none scheduled confirmed schedule e h = absurd (ground arith)
timed-checked (some t) draft true schedule e h = ground arith
timed-checked (some t) draft false schedule e h = absurd (ground arith)
timed-checked (some t) scheduled true schedule e h = ground arith
timed-checked (some t) scheduled false schedule e h = absurd (ground arith)
