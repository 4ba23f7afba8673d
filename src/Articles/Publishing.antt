-- ===== src/Articles/Publishing.antt =====
-- What decides that readers see an article: publishing, unpublishing and archiving
-- (src/app/(dashboard)/dashboard/articles/actions.ts), the pass over what is due
-- (src/lib/scheduledPublishing.ts), and the alert of a breaking story (src/lib/notifications.ts). Pushes to
-- devices change nothing here and are left out.
use article.Prelude.{
  ℕ, Bool, false, not, ◌&&◌, ◌||◌, Option, none, some, List, [], ◌∷◌, ◌==◌, if◌then◌else◌, Text,
  any, map, take, ltb, leb, Result, ok, ◌>>=◌, ◌>>◌, or_fail, String, ◌+◌,
}
use article.Store.{Table}
use article.Auth.Permissions.{moderator}
use article.Auth.Rbac.{SessionUser, Thrown, Answer, require_role, require_verified_email}
use article.Issues.Alerts.{NoticeTable, Notice, breaking_news, create_many}
use article.Articles.Rights.{Media}
use article.Articles.Media.{media_referenced_by, rights_blockers, link_article_media}
use article.Articles.Records.{
  Article, ArticleStatus, draft, live, archived, is_live_status, is_scheduled, Follow, ArticleError,
  no_article, refuses, throwing, answer,
}
use article.Articles.Writing.{assert_can_edit, Step, no_blockers, Room, logged}

abbrev pub breaking_fanout_limit : ℕ
breaking_fanout_limit = 5000

abbrev pub names_it : ℕ → Option ℕ → Bool
names_it id none = false
names_it id (some x) = x == id

abbrev pub in_section : Option ℕ → Option ℕ → Bool
in_section none c = false
in_section (some s) c = names_it s c

-- Followers of the author, unless the story is anonymous, and of the section, but not the author.
abbrev pub is_follower : Article → Follow → Bool
is_follower a f =
    ((not a.anonymous && names_it a.author_id f.author) || in_section a.category f.category)
    && not (f.follower == a.author_id)

-- `[...new Set(ids)]`
abbrev once_each : List ℕ → List ℕ → List ℕ
once_each seen [] = []
once_each seen (i ∷ ids) =
    let old = once_each seen ids in
    let new = i ∷ once_each (i ∷ seen) ids in if any (λ x. x == i) seen then old else new

abbrev pub breaking_notice : ℕ → ℕ → Notice
breaking_notice article_id user_id = record {
  user_id = user_id;
  type = breaking_news;
  target_id = article_id;
}

abbrev pub or_at : Option ℕ → ℕ → ℕ
or_at none now = now
or_at (some at) now = at

unfoldable pub published_row : ℕ → Article → Article
published_row now a = record a { status = live; published_at = some (or_at a.published_at now) }

-- The time it was meant to go live.
unfoldable pub due_row : ℕ → Article → Article
due_row now a = record a {
  status = live;
  published_at = some (or_at a.published_at (or_at a.scheduled_for now));
  scheduled_for = none;
}

-- `scheduledFor: { lte: now }`
abbrev arrived : Option ℕ → ℕ → Bool
arrived none now = false
arrived (some at) now = leb at now

abbrev pub is_due : ℕ → Article → Bool
is_due now a = is_scheduled a.status && arrived a.scheduled_for now

abbrev pub with_status : ArticleStatus → Article → Article
with_status s a = record a { status = s }

module _ (A : Table Article) (M : Table Media) (F : Table Follow) (N : NoticeTable) where
  abbrev tell : ℕ → Option Article → Room A M F N → N.Rows
  tell id none room = room.notices
  tell id (some a) room =
      if is_live_status a.status && a.is_breaking
      then (let followers =
            take breaking_fanout_limit (F.select (λ _ f. is_follower a f) room.follows) in
          (create_many N
            (map (breaking_notice id)
              (once_each [] (map (λ (e : ℕ × Follow). e.1.follower) followers)))
            room.notices).0)
      else room.notices

  unfoldable pub notify_breaking_news : ℕ → Room A M F N → Room A M F N
  notify_breaking_news id room = record room { notices = tell id (A.find id room.articles) room }

  module _ (media_urls : Text → List Text) where
    abbrev pub files_in : Article → Room A M F N → List (ℕ × Media)
    files_in a room = media_referenced_by M (media_urls a.body_html) a.cover room.media

    abbrev pub publishing : Option SessionUser → ℕ → ℕ → Room A M F N → Step (Room A M F N)
    publishing auth id now room = do
      user ← throwing (require_verified_email moderator auth)
      a ← or_fail (A.find id room.articles) (refuses no_article)
      assert_can_edit user a
      no_blockers (rights_blockers (files_in a room))
      let linked = link_article_media A id (files_in a room) room.articles
      let out = record room { articles = A.update id (published_row now) linked }
      ok (logged A M F N user.id "article.publish" id (notify_breaking_news id out))

    unfoldable pub publish_article :
        Option SessionUser
        → ℕ
        → ℕ
        → Room A M F N
        → Result Thrown (Answer ArticleError (Room A M F N))
    publish_article auth id now room = answer (publishing auth id now room)

    abbrev pub withdrawing :
        ArticleStatus → String → Option SessionUser → ℕ → Room A M F N → Step (Room A M F N)
    withdrawing status action auth id room = do
      user ← throwing (require_role moderator auth)
      a ← or_fail (A.find id room.articles) (refuses no_article)
      assert_can_edit user a
      ok (
          logged A M F N user.id action id
            (record room { articles = A.update id (with_status status) room.articles }))

    unfoldable pub unpublish_article :
        Option SessionUser → ℕ → Room A M F N → Result Thrown (Answer ArticleError (Room A M F N))
    unpublish_article auth id room = answer (withdrawing draft "article.unpublish" auth id room)

    unfoldable pub archive_article :
        Option SessionUser → ℕ → Room A M F N → Result Thrown (Answer ArticleError (Room A M F N))
    archive_article auth id room = answer (withdrawing archived "article.archive" auth id room)

    -- One article that is due: held back with its blockers, or made live.
    abbrev pub release : ℕ → ℕ → Article → Room A M F N → Room A M F N
    release now id a room =
        let out = record room { articles = A.update id (due_row now) room.articles } in
        elim (rights_blockers (files_in a room)) [
          | [] ↦ if a.is_breaking then notify_breaking_news id out else out
          | p ∷ ps ↦ room
        ]

    unfoldable pub release_all : ℕ → List (ℕ × Article) → Room A M F N → Room A M F N
    release_all now [] room = room
    release_all now ((id, a) ∷ due) room = release_all now due (release now id a room)

    -- With the moment of the last pass, which is kept by the process: at most one pass a minute.
    unfoldable pub publish_due_articles : ℕ → ℕ → Room A M F N → ℕ × Room A M F N
    unfolding release_all
    publish_due_articles last_run now room =
        if ltb now (last_run + 60000)
        then (last_run, room)
        else (now, release_all now (A.select (λ _ a. is_due now a) room.articles) room)
