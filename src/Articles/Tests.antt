-- ===== src/Articles/Tests.antt =====
-- A newsroom with an article in hand, one that is due, and a photograph.
use mathlib.Core.Option
use article.Prelude.{
  zero, suc, [], ◌∷◌, true, false, none, some, ok, refl, Text, ◌≡◌, List, codes, ℕ, ◌⊎◌, text_eq,
  arith, text_eq_iff, ap, map, to_lower,
}
use article.Store.Memory.{memory, select_from, update}
use article.Issues.Outbox.{outbox}
use article.Auth.Rbac.{succeeded, SessionUser, require_verified_email, require_role}
use article.Auth.Permissions.{moderator}
use article.Articles.Rights.{image, own_work, Media, rights_problem, licenses}
use article.Articles.Records.{
  draft, scheduled, live, en, Article, Newsroom, article_entry, Follow, answer,
}
use article.Articles.Acts.{publishes, act}
use article.Store.{Table}
use article.Articles.Publishing.{
  publish_article, notify_breaking_news, published_row, files_in, publish_due_articles,
}
use article.Articles.Writing.{assert_can_edit}
use article.Articles.Media.{rights_blockers, media_referenced_by, link_article_media}
use article.Audit.{record_audit}
use article.Articles.Unique.{AreUnique, act-AreUnique}
use article.Articles.Slugs.{slugify, unique_slug, is_slug, is_slug_from, own}
use article.Articles.Gates.{act-rights}
use article.Articles.Owners.{Kept, act-Kept}
use article.Articles.Slugs.Kept.{slugify_same}
use article.Articles.Due.{passed_row, publish_due_articles-passed_row}
use article.Articles.Slugs.Free.{unique_slug-free}

abbrev pub A : Table Article
A = memory Article

abbrev M : Table Media
M = memory Media

abbrev F : Table Follow
F = memory Follow

-- What lowering and NFKD do to ASCII.
abbrev lower : Text → Text
lower = map to_lower

abbrev same : Text → Text
same s = s

abbrev no_urls : Text → List Text
no_urls s = []

abbrev photo : Media
photo = record {
  kind = image;
  url = codes "/a.jpg";
  alt_text = none;
  license = some own_work;
  credit = none;
  source_name = none;
  rights_note = none;
  rights_confirmed_at = some 5;
}

abbrev pub story : Article
story = record {
  title = codes "Road";
  dek = none;
  slug = codes "road";
  locale = en;
  translation_of = none;
  body_html = codes "Gone";
  search_text = codes "Gone";
  excerpt = none;
  category = none;
  cover = some 0;
  is_breaking = false;
  anonymous = false;
  seo_title = none;
  seo_description = none;
  author_id = 1;
  status = draft;
  scheduled_for = none;
  published_at = none;
  media = [];
}

abbrev waiting : Article
waiting = record story { slug = codes "bridge"; status = scheduled; scheduled_for = some 40 }

abbrev room : Newsroom A M F outbox
room = record {
  articles = some story ∷ some waiting ∷ [];
  media = some photo ∷ [];
  categories = [];
  tags = [];
  article_tags = [];
  follows = [];
  notices = [];
  audit = [];
}

abbrev pub author : SessionUser
author = record {
  id = 1;
  role = moderator;
  email_confirmed = true;
  permissions = [];
  mfa_enabled = false;
  mfa_uses_app = false;
  must_change_password = false;
}

abbrev out : Article
out = record story { status = live; published_at = some 50; media = 0 ∷ [] }

abbrev room_out : Newsroom A M F outbox
room_out = record room {
  articles = some out ∷ some waiting ∷ [];
  audit = article_entry 1 "article.publish" 0 ∷ [];
}

publishes_it :
    act A M F outbox lower same same no_urls (publishes 50 0) (some author) room
    ≡ ok (succeeded room_out)
unfolding act publish_article answer require_verified_email require_role assert_can_edit
    rights_blockers media_referenced_by select_from rights_problem licenses notify_breaking_news
    record_audit update link_article_media published_row
publishes_it = refl

act-rights_example : rights_blockers (files_in A M F outbox no_urls out room) ≡ []
act-rights_example =
    act-rights A M F outbox lower same same no_urls (publishes 50 0) (some author) room room_out out
      publishes_it refl refl

act-Kept_example :
    (b : Article) × (A.find 0 room_out.articles ≡ some b)
    × ((story ≡ b)
        ⊎ ((user : SessionUser) × (some author ≡ some user) × Kept (publishes 50 0) user story b))
act-Kept_example =
    act-Kept A M F outbox lower same same no_urls (publishes 50 0) (some author) room room_out 0
      story publishes_it refl refl

slugs_differ :
    (i j : ℕ) (r s : Article)
    → A.find i room.articles ≡ some r
    → A.find j room.articles ≡ some s
    → text_eq r.slug s.slug ≡ true
    → i ≡ j
slugs_differ zero zero r s f g q = refl
slugs_differ zero (suc zero) r s f g q = absurd (
    ground (
      arith,
      text_eq_iff r.slug s.slug,
      ap (λ a. Option.map (λ (a : Article). a.slug) a) f,
      ap (λ a. Option.map (λ (a : Article). a.slug) a) g,
    ))
slugs_differ (suc zero) zero r s f g q = absurd (
    ground (
      arith,
      text_eq_iff r.slug s.slug,
      ap (λ a. Option.map (λ (a : Article). a.slug) a) f,
      ap (λ a. Option.map (λ (a : Article). a.slug) a) g,
    ))
slugs_differ (suc zero) (suc zero) r s f g q = refl
slugs_differ zero (suc (suc j)) r s f g q = absurd (ground arith)
slugs_differ (suc zero) (suc (suc j)) r s f g q = absurd (ground arith)
slugs_differ (suc (suc i)) j r s f g q = absurd (ground arith)

act-AreUnique_example : AreUnique A room_out.articles
act-AreUnique_example =
    act-AreUnique A M F outbox lower same same no_urls (publishes 50 0) (some author) room room_out
      publishes_it slugs_differ

unique_slug-free_example :
    (s : Text) × (unique_slug A (λ a. a.slug) lower (codes "Road") none room.articles ≡ some s)
    × ((text_eq story.slug s ≡ false) ⊎ (own A (λ a. a.slug) none 0 ≡ true))
unique_slug-free_example =
    unique_slug-free A (λ a. a.slug) lower (codes "Road") none room.articles 0 story slugs_differ
      refl

accepted : is_slug (codes "old-road-2") ≡ true
unfolding is_slug is_slug_from
accepted = refl

slugify_same_example : slugify lower (codes "old-road-2") ≡ codes "old-road-2"
slugify_same_example = slugify_same lower (codes "old-road-2") (λ t h. refl) accepted

publish_due_articles-passed_row_example :
    A.find 1 (publish_due_articles A M F outbox no_urls 0 70000 room).1.articles
    ≡ some (passed_row A M F outbox no_urls 70000 room waiting)
publish_due_articles-passed_row_example =
    publish_due_articles-passed_row A M F outbox no_urls 0 70000 room 1 waiting (omega arith) refl
