-- ===== src/Articles/Inversion.antt =====
-- What an action on an article that answers ok has checked and done.
use article.Prelude.{
  ℕ, ◌≡◌, refl, Bool, true, ◌||◌, Option, none, some, List, [], ◌∷◌, ◌==◌, Text, arith, Result, ok,
  err, Option-cases, Bool-cases, inl, inr, String, List-cases,
}
use article.Store.{Table}
use article.Auth.Rbac.{SessionUser, require_role, require_verified_email, succeeded, guard_action}
use article.Issues.Alerts.{NoticeTable}
use article.Articles.Rights.{Media, RightsProblem}
use article.Articles.Media.{rights_blockers, link_article_media}
use article.Articles.Records.{
  Article, ArticleStatus, ArticleInput, Follow, answer, Stop, throws, refuses,
}
use article.Articles.Writing.{
  assert_can_edit, no_blockers, Room, is_admin_tier, after_saving, apply_cover_alt, sync_tags,
}
use article.Articles.Publishing.{
  publishing, published_row, withdrawing, files_in, notify_breaking_news, with_status,
}

-- Who may change an article.
abbrev pub can_edit : SessionUser → Article → Bool
can_edit user a = is_admin_tier user.role || a.author_id == user.id

pub answer-ok :
    {E X : Type 0} (m : Result (Stop E) X) (x : X) → answer m ≡ ok (succeeded x) → m ≡ ok x
unfolding answer guard_action
answer-ok (ok y) x h = ground arith
answer-ok (err (refuses e)) x h = absurd (ground arith)
answer-ok (err (throws t)) x h = absurd (ground arith)

pub no_blockers-ok : (ps : List (ℕ × RightsProblem)) → no_blockers ps ≡ ok tt → ps ≡ []
no_blockers-ok [] h = refl
no_blockers-ok (p ∷ ps) h = absurd (ground arith)

module _ (A : Table Article) (M : Table Media) (F : Table Follow) (N : NoticeTable) where
  pub after_saving-articles :
      (normalise : Text → Text) (actor : ℕ) (action : String) (id : ℕ) (input : ArticleInput)
      (files : List (ℕ × Media)) (room : Room A M F N)
      → (after_saving A M F N normalise actor action id input files room).articles
        ≡ link_article_media A id files room.articles
  unfolding after_saving apply_cover_alt sync_tags
  after_saving-articles normalise actor action id input files room =
      elim (Option-cases input.cover) [
        | inl e ↦ rw e refl
        | inr (c, e) ↦ elim (Option-cases input.cover_alt_text) [
          | inl f ↦ rw (e, f) refl
          | inr (t, f) ↦ rw (e, f) refl
        ]
      ]

  pub record Published (media_urls : Text → List Text) (auth : Option SessionUser) (id now : ℕ)
      (room room' : Room A M F N) : Type 0 where
    pub user : SessionUser
    pub row : Article
    pub signed_in : auth ≡ some user
    pub confirmed : user.email_confirmed ≡ true
    pub found : A.find id room.articles ≡ some row
    pub allowed : can_edit user row ≡ true
    pub cleared : rights_blockers (files_in A M F N media_urls row room) ≡ []
    pub after :
        room'.articles
        ≡ A.update id
            (published_row now)
            (link_article_media A id (files_in A M F N media_urls row room) room.articles)

  pub publishing-Published :
      (media_urls : Text → List Text) (auth : Option SessionUser) (id now : ℕ)
      (room room' : Room A M F N)
      → publishing A M F N media_urls auth id now room ≡ ok room'
      → Published media_urls auth id now room room'
  unfolding require_verified_email require_role assert_can_edit notify_breaking_news
  publishing-Published media_urls none id now room room' h = absurd (ground arith)
  publishing-Published media_urls (some user) id now room room' h =
      elim (Option-cases (A.find id room.articles)) [
        | inl gone ↦ absurd (ground arith)
        | inr (a, f) ↦ elim (Bool-cases (can_edit user a)) [
          | inr bar ↦ absurd (ground arith)
          | inl may ↦ elim (List-cases (rights_blockers (files_in A M F N media_urls a room))) [
            | inr ((p, ps), b) ↦ absurd (ground arith)
            | inl clear ↦ record {
              user = user;
              row = a;
              signed_in = refl;
              confirmed = ground arith;
              found = f;
              allowed = may;
              cleared = clear;
              after = ground arith;
            }
          ]
        ]
      ]

  pub record Withdrawn (status : ArticleStatus) (auth : Option SessionUser) (id : ℕ)
      (room room' : Room A M F N) : Type 0 where
    pub user : SessionUser
    pub row : Article
    pub signed_in : auth ≡ some user
    pub found : A.find id room.articles ≡ some row
    pub allowed : can_edit user row ≡ true
    pub after : room'.articles ≡ A.update id (with_status status) room.articles

  pub withdrawing-Withdrawn :
      (media_urls : Text → List Text) (status : ArticleStatus) (action : String)
      (auth : Option SessionUser) (id : ℕ) (room room' : Room A M F N)
      → withdrawing A M F N media_urls status action auth id room ≡ ok room'
      → Withdrawn status auth id room room'
  unfolding require_role assert_can_edit
  withdrawing-Withdrawn media_urls status action none id room room' h = absurd (ground arith)
  withdrawing-Withdrawn media_urls status action (some user) id room room' h =
      elim (Option-cases (A.find id room.articles)) [
        | inl gone ↦ absurd (ground arith)
        | inr (a, f) ↦ record {
          user = user;
          row = a;
          signed_in = refl;
          found = f;
          allowed = ground arith;
          after = ground arith;
        }
      ]
