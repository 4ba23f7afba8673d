-- ===== src/Articles/Saves.antt =====
-- What saving an article that answers ok has checked and done.
use article.Articles.Inversion.{can_edit, after_saving-articles, no_blockers-ok}
use article.Prelude.{
  Result, Text, List, Option, ℕ, ◌≡◌, ok, arith, err, some, bind-ok, then-ok, if◌then◌else◌,
  is_empty, none, [], guard, or_fail, or_fail-ok, ap, true, sym, ◌||◌, ok-inj, ◌∙◌, guard-ok, refl,
}
use article.Auth.Rbac.{require_role, Thrown, SessionUser, fault}
use article.Store.{Table}
use article.Articles.Records.{
  Article, throwing, Follow, ArticleInput, draft, is_valid_input, refuses, invalid_input, throws,
  no_article, is_live_status,
}
use article.Articles.Rights.{Media}
use article.Issues.Alerts.{NoticeTable}
use article.Articles.Writing.{
  Room, Schedule, creating, schedule_fields, schedules, files_of, new_article, validate_relations,
  resolve_translation_of, no_blockers, assert_can_edit, slug_for, updating, edited_article,
}
use article.Articles.Slugs.{unique_slug}
use article.Articles.Media.{rights_blockers, link_article_media}
use article.Auth.Permissions.{Tier, moderator}

pub throwing-ok :
    {E X : Type 0} (m : Result Thrown X) (x : X) → throwing {E = E} m ≡ ok x → m ≡ ok x
throwing-ok (ok y) x h = ground arith
throwing-ok (err e) x h = absurd (ground arith)

pub require_role-ok :
    (tier : Tier) (auth : Option SessionUser) (user : SessionUser)
    → require_role tier auth ≡ ok user
    → auth ≡ some user
unfolding require_role
require_role-ok tier none user h = absurd (ground arith)
require_role-ok tier (some u) user h = ground arith

module _ (A : Table Article) (M : Table Media) (F : Table Follow) (N : NoticeTable)
    (normalise sanitize search_text : Text → Text) (media_urls : Text → List Text) where
  pub record Created (auth : Option SessionUser) (now : ℕ) (input : ArticleInput) (id : ℕ)
      (room room' : Room A M F N) : Type 0 where
    pub user : SessionUser
    pub slug : Text
    pub schedule : Schedule
    pub translation : Option ℕ
    pub signed_in : auth ≡ some user
    pub free :
        unique_slug A
          (λ a. a.slug)
          normalise
          (if is_empty input.slug then input.title else input.slug)
          none
          room.articles
        ≡ some slug
    pub timed : schedule_fields input.scheduled_for draft user.email_confirmed ≡ ok schedule
    pub cleared :
        (if schedules schedule
          then rights_blockers
              (files_of A M F N normalise sanitize search_text media_urls input room)
          else [])
        ≡ []
    pub after :
        room'.articles
        ≡ link_article_media A id
            (files_of A M F N normalise sanitize search_text media_urls input room)
            (A.put id
              (new_article A M F N normalise sanitize search_text media_urls user input slug
                translation schedule)
              room.articles)

  pub creating-Created :
      (auth : Option SessionUser) (now : ℕ) (input : ArticleInput) (id : ℕ)
      (room room' : Room A M F N)
      → creating A M F N normalise sanitize search_text media_urls auth now input id room ≡ ok room'
      → Created auth now input id room room'
  creating-Created auth now input id room room' h0 =
      bind-ok (throwing (require_role moderator auth)) _ room' h0 (λ user e0 h1.
        then-ok (guard (is_valid_input now input) (refuses invalid_input)) _ room' h1 (λ _ h2.
          then-ok (validate_relations A M F N input room) _ room' h2 (λ _ h3.
            bind-ok
              (or_fail
                (unique_slug A (λ a. a.slug) normalise
                  (if is_empty input.slug then input.title else input.slug) none room.articles)
                (throws fault))
              _ room' h3
              (λ slug e3 h4.
                bind-ok (schedule_fields input.scheduled_for draft user.email_confirmed) _ room' h4
                  (λ schedule e4 h5.
                    bind-ok
                      (resolve_translation_of A M F N input.translation_of_slug none room.articles)
                      _ room' h5
                      (λ translation _ h6.
                        then-ok
                          (no_blockers (
                            if schedules schedule
                            then rights_blockers (
                                files_of A M F N normalise sanitize search_text media_urls input
                                  room)
                            else []))
                          _ room' h6
                          (λ e6 h7. record {
                            user = user;
                            slug = slug;
                            schedule = schedule;
                            translation = translation;
                            signed_in = require_role-ok moderator auth user (throwing-ok _ user e0);
                            free = or_fail-ok _ _ slug e3;
                            timed = e4;
                            cleared = no_blockers-ok _ e6;
                            after =
                                ap (λ r. r.articles) (sym (ok-inj _ room' _ refl h7))
                                ∙ after_saving-articles A M F N normalise user.id "article.create"
                                    id input _ _;
                          })))))))

  pub record Updated (auth : Option SessionUser) (id now : ℕ) (input : ArticleInput)
      (room room' : Room A M F N) : Type 0 where
    pub user : SessionUser
    pub row : Article
    pub slug : Text
    pub schedule : Schedule
    pub translation : Option ℕ
    pub signed_in : auth ≡ some user
    pub found : A.find id room.articles ≡ some row
    pub allowed : can_edit user row ≡ true
    pub free :
        slug_for A M F N normalise sanitize search_text media_urls id input row room.articles
        ≡ some slug
    pub timed : schedule_fields input.scheduled_for row.status user.email_confirmed ≡ ok schedule
    pub cleared :
        (if schedules schedule || is_live_status row.status
          then rights_blockers
              (files_of A M F N normalise sanitize search_text media_urls input room)
          else [])
        ≡ []
    pub after :
        room'.articles
        ≡ link_article_media A id
            (files_of A M F N normalise sanitize search_text media_urls input room)
            (A.update id
              (edited_article A M F N normalise sanitize search_text media_urls input slug
                translation schedule)
              room.articles)

  pub updating-Updated :
      (auth : Option SessionUser) (id now : ℕ) (input : ArticleInput) (room room' : Room A M F N)
      → updating A M F N normalise sanitize search_text media_urls auth id now input room ≡ ok room'
      → Updated auth id now input room room'
  unfolding assert_can_edit
  updating-Updated auth id now input room room' h0 =
      bind-ok (throwing (require_role moderator auth)) _ room' h0 (λ user e0 h1.
        bind-ok (or_fail (A.find id room.articles) (refuses no_article)) _ room' h1 (λ a e1 h2.
          then-ok (assert_can_edit user a) _ room' h2 (λ e2 h3.
            then-ok (guard (is_valid_input now input) (refuses invalid_input)) _ room' h3 (λ _ h4.
              then-ok (validate_relations A M F N input room) _ room' h4 (λ _ h5.
                bind-ok
                  (or_fail
                    (slug_for A M F N normalise sanitize search_text media_urls id input a
                      room.articles)
                    (throws fault))
                  _ room' h5
                  (λ slug e5 h6.
                    bind-ok (schedule_fields input.scheduled_for a.status user.email_confirmed) _
                      room' h6
                      (λ schedule e6 h7.
                        bind-ok
                          (resolve_translation_of A M F N input.translation_of_slug (some id)
                            room.articles)
                          _ room' h7
                          (λ translation _ h8.
                            then-ok
                              (no_blockers (
                                if schedules schedule || is_live_status a.status
                                then rights_blockers (
                                    files_of A M F N normalise sanitize search_text media_urls input
                                      room)
                                else []))
                              _ room' h8
                              (λ e8 h9. record {
                                user = user;
                                row = a;
                                slug = slug;
                                schedule = schedule;
                                translation = translation;
                                signed_in =
                                    require_role-ok moderator auth user (throwing-ok _ user e0);
                                found = or_fail-ok _ _ a e1;
                                allowed = guard-ok _ _ e2;
                                free = or_fail-ok _ _ slug e5;
                                timed = e6;
                                cleared = no_blockers-ok _ e8;
                                after =
                                    ap (λ r. r.articles) (sym (ok-inj _ room' _ refl h9))
                                    ∙ after_saving-articles A M F N normalise user.id
                                        "article.update" id input _ _;
                              })))))))))
