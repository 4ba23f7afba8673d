-- ===== src/Articles/Writing.antt =====
-- src/app/(dashboard)/dashboard/articles/actions.ts: creating and editing an article. `normalise` is the
-- language's `.toLowerCase().normalize("NFKD")`, `sanitize` is `sanitizeArticleHtml` of src/lib/sanitize.ts
-- over its library, `media_urls` and `search_text` are the patterns of src/lib/mediaRights.ts and
-- src/lib/searchText.ts.
use article.Prelude.{
  ℕ, Bool, true, false, not, ◌&&◌, ◌||◌, Option, none, some, List, [], ◌∷◌, ◌++◌, ◌==◌,
  if◌then◌else◌, Text, text_eq, any, map, keep, is_empty, trim, trimmed_or_null, Result, ok, err,
  ◌>>=◌, ◌>>◌, guard, or_fail, is_some, String,
}
use article.Store.{Table}
use article.Audit.{record_audit}
use article.Auth.Permissions.{Tier, admin, moderator}
use article.Auth.Rbac.{SessionUser, Thrown, not_yours, fault, Answer, require_role}
use article.Issues.Alerts.{NoticeTable}
use article.Articles.Rights.{Media, RightsProblem}
use article.Articles.Slugs.{slugify, unique_slug}
use article.Articles.Media.{media_referenced_by, rights_blockers, link_article_media}
use article.Articles.Records.{
  Article, ArticleStatus, draft, in_review, scheduled, live, archived, is_live_status, is_scheduled,
  Locale, en, ArticleInput, is_valid_input, Follow, ArticleError, invalid_input, no_article,
  no_category, no_cover, unverified_schedule, no_original, own_translation, rights_missing, Stop,
  throws, refuses, throwing, answer, Newsroom, article_entry,
}

abbrev pub is_admin_tier : Tier → Bool
is_admin_tier admin = true
is_admin_tier _ = false

abbrev pub Step : Type 0 → Type 0
Step X = Result (Stop ArticleError) X

unfoldable pub assert_can_edit : SessionUser → Article → Step (Unit {0})
assert_can_edit user article =
    guard (is_admin_tier user.role || article.author_id == user.id) (throws not_yours)

-- What saving does to the schedule: leaves it, or sets the status and the moment.
pub data Schedule : Type 0 where
  untouched : Schedule
  set_to : ArticleStatus → Option ℕ → Schedule

abbrev pub wanted_schedule : Option ℕ → ArticleStatus → Bool → Step Schedule
wanted_schedule (some at) status confirmed =
    if confirmed then ok (set_to scheduled (some at)) else err (refuses unverified_schedule)
wanted_schedule none scheduled confirmed = ok (set_to draft none)
wanted_schedule none _ confirmed = ok untouched

unfoldable pub schedule_fields : Option ℕ → ArticleStatus → Bool → Step Schedule
schedule_fields at draft confirmed = wanted_schedule at draft confirmed
schedule_fields at scheduled confirmed = wanted_schedule at scheduled confirmed
schedule_fields at in_review confirmed = ok untouched
schedule_fields at live confirmed = ok untouched
schedule_fields at archived confirmed = ok untouched

abbrev pub schedules : Schedule → Bool
schedules untouched = false
schedules (set_to s at) = is_scheduled s

abbrev pub new_status : Schedule → ArticleStatus → ArticleStatus
new_status untouched s = s
new_status (set_to s' at) s = s'

abbrev pub new_time : Schedule → Option ℕ → Option ℕ
new_time untouched at = at
new_time (set_to s at') at = at'

abbrev pub no_blockers : List (ℕ × RightsProblem) → Step (Unit {0})
no_blockers [] = ok tt
no_blockers (p ∷ ps) = err (refuses (rights_missing (p ∷ ps)))

abbrev pub clean : Option Text → Option Text
clean none = none
clean (some s) = trimmed_or_null s

abbrev or_english : Option Locale → Locale
or_english none = en
or_english (some l) = l

-- A field that the form leaves out stays as it is.
abbrev pub or_kept : Option Text → Option Text → Option Text
or_kept none old = old
or_kept (some new) old = some new

abbrev pub known : List ℕ → Option ℕ → Bool
known all none = true
known all (some c) = any (λ x. x == c) all

abbrev pub same_article : Option ℕ → ℕ → Bool
same_article none id = false
same_article (some self) id = self == id

-- `wanted.set(slug, name)`
abbrev set_tag : Text → Text → List (Text × Text) → List (Text × Text)
set_tag slug name [] = (slug, name) ∷ []
set_tag slug name ((s, n) ∷ tags) =
    let rest = set_tag slug name tags in if text_eq s slug then (s, name) ∷ tags else (s, n) ∷ rest

abbrev has_tag : Text → List (Text × Text) → Bool
has_tag slug tags = any (λ (t : Text × Text). text_eq t.0 slug) tags

abbrev wanted_from : (Text → Text) → List (Text × Text) → List Text → List (Text × Text)
wanted_from normalise wanted [] = wanted
wanted_from normalise wanted (raw ∷ raws) =
    let slug = slugify normalise raw in
    wanted_from normalise (if is_empty slug then wanted else set_tag slug (trim raw) wanted) raws

abbrev add_missing : List (Text × Text) → List (Text × Text) → List (Text × Text)
add_missing [] tags = tags
add_missing ((s, n) ∷ wanted) tags =
    add_missing wanted (if has_tag s tags then tags else tags ++ (s, n) ∷ [])

module _ (A : Table Article) (M : Table Media) (F : Table Follow) (N : NoticeTable) where
  abbrev pub Room : Type 0
  Room = Newsroom A M F N

  -- The tags of one article, and the tags that are there.
  unfoldable pub sync_tags : (Text → Text) → ℕ → List Text → Room → Room
  sync_tags normalise id tag_slugs room =
      let wanted = wanted_from normalise [] tag_slugs in
      let others = keep (λ (t : ℕ × Text). not (t.0 == id)) room.article_tags in
      record room {
        tags = add_missing wanted room.tags;
        article_tags = others ++ map (λ (t : Text × Text). (id, t.0)) wanted;
      }

  abbrev alt_on : Option ℕ → Option Text → Room → Room
  alt_on none alt room = room
  alt_on (some c) none room = room
  alt_on (some c) (some alt) room = record room {
    media = M.update c (λ m. record m { alt_text = trimmed_or_null alt }) room.media;
  }

  unfoldable pub apply_cover_alt : ArticleInput → Room → Room
  apply_cover_alt input room = alt_on input.cover input.cover_alt_text room

  abbrev cover_there : Option ℕ → M.Rows → Bool
  cover_there none media = true
  cover_there (some c) media = is_some (M.find c media)

  unfoldable pub validate_relations : ArticleInput → Room → Step (Unit {0})
  validate_relations input room = do
    guard (known room.categories input.category) (refuses no_category)
    guard (cover_there input.cover room.media) (refuses no_cover)

  abbrev original : Option ℕ → Option (ℕ × Article) → Step (Option ℕ)
  original self none = err (refuses no_original)
  original self (some (id, a)) =
      if same_article self id then err (refuses own_translation) else ok (some id)

  unfoldable pub resolve_translation_of : Text → Option ℕ → A.Rows → Step (Option ℕ)
  resolve_translation_of slug self articles =
      if is_empty slug then ok none else original self (A.first (λ a. text_eq a.slug slug) articles)

  abbrev pub logged : ℕ → String → ℕ → Room → Room
  logged actor action id room = record room {
    audit = record_audit (article_entry actor action id) room.audit;
  }

  -- What both ways of saving do once the row is written.
  unfoldable pub after_saving :
      (Text → Text) → ℕ → String → ℕ → ArticleInput → List (ℕ × Media) → Room → Room
  after_saving normalise actor action id input files room =
      let tagged = apply_cover_alt input (sync_tags normalise id input.tag_slugs room) in
      logged actor action id
        (record tagged { articles = link_article_media A id files tagged.articles })

  module _ (normalise sanitize search_text : Text → Text) (media_urls : Text → List Text) where
    unfoldable pub new_article : SessionUser → ArticleInput → Text → Option ℕ → Schedule → Article
    new_article user input slug translation schedule = record {
      title = input.title;
      dek = input.dek;
      slug = slug;
      locale = or_english input.locale;
      translation_of = translation;
      body_html = sanitize input.body_html;
      search_text = search_text (sanitize input.body_html);
      excerpt = input.excerpt;
      category = input.category;
      cover = input.cover;
      is_breaking = input.is_breaking;
      anonymous = input.anonymous;
      seo_title = clean input.seo_title;
      seo_description = clean input.seo_description;
      author_id = user.id;
      status = new_status schedule draft;
      scheduled_for = new_time schedule none;
      published_at = none;
      media = [];
    }

    unfoldable pub edited_article : ArticleInput → Text → Option ℕ → Schedule → Article → Article
    edited_article input slug translation schedule a = record a {
      title = input.title;
      dek = or_kept input.dek a.dek;
      slug = slug;
      locale = or_english input.locale;
      translation_of = translation;
      body_html = sanitize input.body_html;
      search_text = search_text (sanitize input.body_html);
      excerpt = or_kept input.excerpt a.excerpt;
      category = input.category;
      cover = input.cover;
      is_breaking = input.is_breaking;
      anonymous = input.anonymous;
      seo_title = clean input.seo_title;
      seo_description = clean input.seo_description;
      status = new_status schedule a.status;
      scheduled_for = new_time schedule a.scheduled_for;
    }

    abbrev pub files_of : ArticleInput → Room → List (ℕ × Media)
    files_of input room =
        media_referenced_by M (media_urls (sanitize input.body_html)) input.cover room.media

    -- `id` is what the database makes up, `now` the clock of the form's check.
    abbrev pub creating : Option SessionUser → ℕ → ArticleInput → ℕ → Room → Step Room
    creating auth now input id room = do
      user ← throwing (require_role moderator auth)
      guard (is_valid_input now input) (refuses invalid_input)
      validate_relations input room
      slug ←
          or_fail
            (unique_slug A (λ a. a.slug) normalise
              (if is_empty input.slug then input.title else input.slug) none room.articles)
            (throws fault)
      schedule ← schedule_fields input.scheduled_for draft user.email_confirmed
      translation ← resolve_translation_of input.translation_of_slug none room.articles
      no_blockers (if schedules schedule then rights_blockers (files_of input room) else [])
      let row = new_article user input slug translation schedule
      let saved = record room { articles = A.put id row room.articles }
      ok (after_saving normalise user.id "article.create" id input (files_of input room) saved)

    unfoldable pub create_article :
        Option SessionUser → ℕ → ArticleInput → ℕ → Room → Result Thrown (Answer ArticleError Room)
    create_article auth now input id room = answer (creating auth now input id room)

    abbrev pub slug_for : ℕ → ArticleInput → Article → A.Rows → Option Text
    slug_for id input a articles =
        if not (is_empty input.slug) && not (text_eq input.slug a.slug)
        then unique_slug A (λ a. a.slug) normalise input.slug (some id) articles
        else some a.slug

    abbrev pub updating : Option SessionUser → ℕ → ℕ → ArticleInput → Room → Step Room
    updating auth id now input room = do
      user ← throwing (require_role moderator auth)
      a ← or_fail (A.find id room.articles) (refuses no_article)
      assert_can_edit user a
      guard (is_valid_input now input) (refuses invalid_input)
      validate_relations input room
      slug ← or_fail (slug_for id input a room.articles) (throws fault)
      schedule ← schedule_fields input.scheduled_for a.status user.email_confirmed
      translation ← resolve_translation_of input.translation_of_slug (some id) room.articles
      no_blockers (
          if schedules schedule || is_live_status a.status
          then rights_blockers (files_of input room)
          else [])
      let row = edited_article input slug translation schedule
      let saved = record room { articles = A.update id row room.articles }
      ok (after_saving normalise user.id "article.update" id input (files_of input room) saved)

    unfoldable pub update_article :
        Option SessionUser → ℕ → ℕ → ArticleInput → Room → Result Thrown (Answer ArticleError Room)
    update_article auth id now input room = answer (updating auth id now input room)
