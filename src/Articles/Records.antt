-- ===== src/Articles/Records.antt =====
-- The rows behind articles (prisma/schema.prisma), the form of an article
-- (src/lib/validation/article.ts), and what an action answers. The body's document for the editor and
-- the texts for search engines beyond their lengths are left out.
use article.Prelude.{
  ℕ, ◌+◌, Bool, true, false, ◌&&◌, ◌||◌, Option, none, some, List, ltb, leb, Text, utf16_length,
  length, all, is_empty, Result, ok, err, String,
}
use article.Store.{Table}
use article.Audit.{AuditEntry}
use article.Auth.Rbac.{Thrown, Answer, succeeded, failed, guard_action}
use article.Articles.Rights.{Media, RightsProblem}
use article.Articles.Slugs.{is_slug, is_slug_from}
use article.Issues.Alerts.{NoticeTable}

pub data ArticleStatus : Type 0 where
  draft in_review scheduled live archived : ArticleStatus

abbrev pub is_live_status : ArticleStatus → Bool
is_live_status live = true
is_live_status _ = false

abbrev pub is_scheduled : ArticleStatus → Bool
is_scheduled scheduled = true
is_scheduled _ = false

pub data Locale : Type 0 where
  en ne : Locale

-- A row of Article. `live` is PUBLISHED; `media` is the relation to Media.
pub record Article : Type 0 where
  pub title : Text
  pub dek : Option Text
  pub slug : Text
  pub locale : Locale
  pub translation_of : Option ℕ
  pub body_html : Text
  pub search_text : Text
  pub excerpt : Option Text
  pub category : Option ℕ
  pub cover : Option ℕ
  pub is_breaking : Bool
  pub anonymous : Bool
  pub seo_title : Option Text
  pub seo_description : Option Text
  pub author_id : ℕ
  pub status : ArticleStatus
  pub scheduled_for : Option ℕ
  pub published_at : Option ℕ
  pub media : List ℕ

-- The form; a publication time is its moment.
pub record ArticleInput : Type 0 where
  pub title : Text
  pub dek : Option Text
  pub slug : Text
  pub body_html : Text
  pub excerpt : Option Text
  pub category : Option ℕ
  pub tag_slugs : List Text
  pub is_breaking : Bool
  pub anonymous : Bool
  pub cover : Option ℕ
  pub cover_alt_text : Option Text
  pub locale : Option Locale
  pub translation_of_slug : Text
  pub seo_title : Option Text
  pub seo_description : Option Text
  pub scheduled_for : Option ℕ

abbrev at_most : ℕ → Option Text → Bool
at_most n none = true
at_most n (some s) = leb (utf16_length s) n

-- `new Date(v).getTime() > Date.now() - 60_000`
abbrev in_future : ℕ → Option ℕ → Bool
in_future now none = true
in_future now (some t) = ltb now (t + 60000)

abbrev tag_ok : Text → Bool
tag_ok s = leb 1 (utf16_length s) && leb (utf16_length s) 50

abbrev translation_ok : Text → Bool
translation_ok s = is_empty s || (leb (length s) 160 && is_slug_from false s)

-- `articleInputSchema`, on values of its types.
unfoldable pub is_valid_input : ℕ → ArticleInput → Bool
is_valid_input now input =
    leb 1 (utf16_length input.title)
    && leb (utf16_length input.title) 200
    && at_most 300 input.dek
    && is_slug input.slug
    && leb (utf16_length input.body_html) 200000
    && at_most 500 input.excerpt
    && all tag_ok input.tag_slugs
    && leb (length input.tag_slugs) 10
    && at_most 200 input.cover_alt_text
    && translation_ok input.translation_of_slug
    && at_most 70 input.seo_title
    && at_most 170 input.seo_description
    && in_future now input.scheduled_for

-- A row of Follow: somebody follows an author or a section.
pub record Follow : Type 0 where
  pub follower : ℕ
  pub author : Option ℕ
  pub category : Option ℕ

pub data ArticleError : Type 0 where
  invalid_input no_article no_category no_cover unverified_schedule no_original own_translation :
      ArticleError
  rights_missing : List (ℕ × RightsProblem) → ArticleError

-- How a body ends before its end: it throws, or it answers `{ ok: false, error }`.
pub data Stop (E : Type 0) : Type 0 where
  throws : Thrown → Stop E
  refuses : E → Stop E

abbrev pub throwing : {E A : Type 0} → Result Thrown A → Result (Stop E) A
throwing (ok a) = ok a
throwing (err e) = err (throws e)

-- What `guardAction` makes of a body.
unfoldable pub answer : {E A : Type 0} → Result (Stop E) A → Result Thrown (Answer E A)
answer (ok a) = ok (succeeded a)
answer (err (refuses e)) = ok (failed e)
answer (err (throws t)) = guard_action (err t)

-- What the actions on articles read and write. Tags are their slugs with their names.
pub record Newsroom (A : Table Article) (M : Table Media) (F : Table Follow) (N : NoticeTable)
    : Type 0 where
  pub articles : A.Rows
  pub media : M.Rows
  pub categories : List ℕ
  pub tags : List (Text × Text)
  pub article_tags : List (ℕ × Text)
  pub follows : F.Rows
  pub notices : N.Rows
  pub audit : List AuditEntry

abbrev pub article_entry : ℕ → String → ℕ → AuditEntry
article_entry actor action id = record {
  actor_id = actor;
  action = action;
  target_type = "Article";
  target_id = id;
}
