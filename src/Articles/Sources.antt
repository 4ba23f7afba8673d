-- ===== src/Articles/Sources.antt =====
-- The numbered references and the links below an article: the second half of
-- src/app/(dashboard)/dashboard/articles/actions.ts, with the forms of src/lib/validation/article.ts.
-- `is_url` is the language's URL parser with the check for http and https; the limiter's verdict and the
-- fetched preview are what src/lib/rateLimit.ts and src/lib/linkPreview/ return.
pub mod Numbers
pub mod Renumbered
pub mod Edits
pub mod Tests
use article.Articles.Writing.{is_admin_tier, clean}
use article.Prelude.{
  Option, ◌-◌, Text, ℕ, List, Bool, some, true, Result, ◌&&◌, ◌==◌, trim, String, leb, ok, ltb,
  utf16_length, guard, ◌||◌, none, [], ◌∷◌, ◌>>=◌, ◌>>◌, err, max, or_fail, not, ◌+◌, is_some,
}
use article.Store.{Table}
use article.Articles.Records.{Article, Stop, article_entry, throws, answer, refuses, throwing}
use article.Audit.{AuditEntry, record_audit}
use article.Auth.Rbac.{SessionUser, Thrown, Answer, not_yours, require_role, fault}
use article.Auth.Permissions.{moderator}

-- A row of ArticleReference.
pub record Reference : Type 0 where
  pub article_id : ℕ
  pub position : ℕ
  pub title : Text
  pub author : Option Text
  pub publication : Option Text
  pub url : Option Text
  pub published_on : Option Text
  pub note : Option Text

-- A row of ArticleLink.
pub record ArticleLink : Type 0 where
  pub article_id : ℕ
  pub url : Text
  pub label : Option Text
  pub title : Option Text
  pub description : Option Text
  pub site_name : Option Text
  pub fetched_at : Option ℕ

pub record Preview : Type 0 where
  pub title : Option Text
  pub description : Option Text
  pub site_name : Option Text

pub record ReferenceInput : Type 0 where
  pub article_id : ℕ
  pub title : Text
  pub author : Option Text
  pub publication : Option Text
  pub url : Option Text
  pub published_on : Option Text
  pub note : Option Text

pub record LinkInput : Type 0 where
  pub article_id : ℕ
  pub url : Text
  pub label : Option Text

pub data SourceError : Type 0 where
  invalid_source article_gone too_many too_fast : SourceError

abbrev pub max_links_per_article : ℕ
max_links_per_article = 10

abbrev pub max_references_per_article : ℕ
max_references_per_article = 50

abbrev fits : ℕ → Option Text → Bool
fits n none = true
fits n (some s) = leb (utf16_length (trim s)) n

abbrev url_fits : (Text → Bool) → Text → Bool
url_fits is_url s = leb (utf16_length s) 2000 && is_url s

abbrev url_ok : (Text → Bool) → Option Text → Bool
url_ok is_url none = true
url_ok is_url (some s) = url_fits is_url s

abbrev label_ok : Option Text → Bool
label_ok none = true
label_ok (some s) = leb (utf16_length s) 200

-- `addArticleReferenceSchema`
unfoldable pub is_valid_reference : (Text → Bool) → ReferenceInput → Bool
is_valid_reference is_url input =
    leb 1 (utf16_length (trim input.title))
    && leb (utf16_length (trim input.title)) 300
    && fits 200 input.author
    && fits 200 input.publication
    && url_ok is_url input.url
    && fits 40 input.published_on
    && fits 500 input.note

-- `addArticleLinkSchema`
unfoldable pub is_valid_link : (Text → Bool) → LinkInput → Bool
is_valid_link is_url input = url_fits is_url input.url && label_ok input.label

-- `orderBy: { position: "desc" }`, with 0 where there is no row.
abbrev pub last_position : List (ℕ × Reference) → ℕ
last_position [] = 0
last_position ((i, r) ∷ rows) = max r.position (last_position rows)

abbrev preview_text : (Preview → Option Text) → Option Preview → Option Text
preview_text f none = none
preview_text f (some p) = f p

abbrev fetched : ℕ → Option Preview → Option ℕ
fetched now none = none
fetched now (some p) = some now

abbrev pub step_down : Reference → Reference
step_down r = record r { position = r.position - 1 }

module _ (A : Table Article) (R : Table Reference) (L : Table ArticleLink) where
  -- What these actions read and write.
  pub record Desk : Type 0 where
    pub articles : A.Rows
    pub references : R.Rows
    pub links : L.Rows
    pub audit : List AuditEntry

  abbrev pub SourceStep : Type 0 → Type 0
  SourceStep X = Result (Stop SourceError) X

  abbrev pub noted : ℕ → String → ℕ → Desk → Desk
  noted actor action id desk = record desk {
    audit = record_audit (article_entry actor action id) desk.audit;
  }

  abbrev pub may_edit : SessionUser → Article → SourceStep (Unit {0})
  may_edit user a = guard (is_admin_tier user.role || a.author_id == user.id) (throws not_yours)

  abbrev pub of_article : ℕ → ℕ → Reference → Bool
  of_article id _ r = r.article_id == id

  abbrev pub new_reference : ReferenceInput → ℕ → Reference
  new_reference input position = record {
    article_id = input.article_id;
    position = position;
    title = trim input.title;
    author = clean input.author;
    publication = clean input.publication;
    url = input.url;
    published_on = clean input.published_on;
    note = clean input.note;
  }

  -- With the position that the reference got. `id` is what the database makes up.
  abbrev pub adding_reference :
      (Text → Bool) → Option SessionUser → ReferenceInput → ℕ → Desk → SourceStep (ℕ × Desk)
  adding_reference is_url auth input id desk = do
    user ← throwing (require_role moderator auth)
    guard (is_valid_reference is_url input) (refuses invalid_source)
    a ← or_fail (A.find input.article_id desk.articles) (refuses article_gone)
    may_edit user a
    guard (ltb (R.count (of_article input.article_id) desk.references) max_references_per_article)
        (refuses too_many)
    let position = last_position (R.select (of_article input.article_id) desk.references) + 1
    let added = record desk { references = R.put id (new_reference input position) desk.references }
    ok (position, noted user.id "article.reference.add" input.article_id added)

  unfoldable pub add_article_reference :
      (Text → Bool)
      → Option SessionUser
      → ReferenceInput
      → ℕ
      → Desk
      → Result Thrown (Answer SourceError (ℕ × Desk))
  add_article_reference is_url auth input id desk =
      answer (adding_reference is_url auth input id desk)

  -- `position: { gt: p }`
  abbrev pub is_after : Reference → Reference → Bool
  is_after gone r = r.article_id == gone.article_id && ltb gone.position r.position

  abbrev pub renumbered : ℕ → Reference → R.Rows → R.Rows
  renumbered id gone t = R.update_many (is_after gone) step_down (R.delete id t)

  -- A reference belongs to an article that is there, since deleting the article deletes it.
  abbrev pub dropping : SessionUser → ℕ → Option Reference → Desk → SourceStep Desk
  dropping user id none desk = ok desk
  dropping user id (some gone) desk = do
    a ← or_fail (A.find gone.article_id desk.articles) (throws fault)
    may_edit user a
    ok (
        noted user.id "article.reference.remove" gone.article_id
          (record desk { references = renumbered id gone desk.references }))

  abbrev pub removing_reference : Option SessionUser → ℕ → Desk → SourceStep Desk
  removing_reference auth id desk = do
    user ← throwing (require_role moderator auth)
    dropping user id (R.find id desk.references) desk

  unfoldable pub remove_article_reference :
      Option SessionUser → ℕ → Desk → Result Thrown (Answer SourceError Desk)
  remove_article_reference auth id desk = answer (removing_reference auth id desk)

  abbrev pub new_link : LinkInput → ℕ → Option Preview → ArticleLink
  new_link input now preview = record {
    article_id = input.article_id;
    url = input.url;
    label = input.label;
    title = preview_text (λ p. p.title) preview;
    description = preview_text (λ p. p.description) preview;
    site_name = preview_text (λ p. p.site_name) preview;
    fetched_at = fetched now preview;
  }

  -- With whether the preview is missing. `allowed` is the limiter's verdict.
  abbrev pub adding_link :
      (Text → Bool)
      → Bool
      → Option Preview
      → Option SessionUser
      → LinkInput
      → ℕ
      → ℕ
      → Desk
      → SourceStep (Bool × Desk)
  adding_link is_url allowed preview auth input now id desk = do
    user ← throwing (require_role moderator auth)
    guard (is_valid_link is_url input) (refuses invalid_source)
    a ← or_fail (A.find input.article_id desk.articles) (refuses article_gone)
    may_edit user a
    guard (ltb (L.count (λ _ l. l.article_id == input.article_id) desk.links) max_links_per_article)
        (refuses too_many)
    guard allowed (refuses too_fast)
    let added = record desk { links = L.put id (new_link input now preview) desk.links }
    ok (not (is_some preview), noted user.id "article.link.add" input.article_id added)

  unfoldable pub add_article_link :
      (Text → Bool)
      → Bool
      → Option Preview
      → Option SessionUser
      → LinkInput
      → ℕ
      → ℕ
      → Desk
      → Result Thrown (Answer SourceError (Bool × Desk))
  add_article_link is_url allowed preview auth input now id desk =
      answer (adding_link is_url allowed preview auth input now id desk)

  abbrev unlinking : SessionUser → ℕ → Option ArticleLink → Desk → SourceStep Desk
  unlinking user id none desk = ok desk
  unlinking user id (some gone) desk = do
    a ← or_fail (A.find gone.article_id desk.articles) (throws fault)
    may_edit user a
    ok (
        noted user.id "article.link.remove" gone.article_id
          (record desk { links = L.delete id desk.links }))

  abbrev pub removing_link : Option SessionUser → ℕ → Desk → SourceStep Desk
  removing_link auth id desk = do
    user ← throwing (require_role moderator auth)
    unlinking user id (L.find id desk.links) desk

  unfoldable pub remove_article_link :
      Option SessionUser → ℕ → Desk → Result Thrown (Answer SourceError Desk)
  remove_article_link auth id desk = answer (removing_link auth id desk)
