-- ===== src/Comments/Promises.antt =====
-- What the actions on comments promise to the people of the site.
use article.Prelude.{true, false, some, ok, Bool, Option, ℕ, ◌≡◌, ◌⊎◌, arith, subst, inl, inr}
use article.Auth.Rbac.{succeeded, SessionUser}
use article.Store.{Table}
use article.Articles.Records.{Article}
use article.Comments.Threads.{Comment, Report, SiteSettings, is_staff, is_gone, is_approved}
use article.Auth.Account.{User}
use article.Issues.Alerts.{NoticeTable}
use article.Comments.Actions.{Deed, IsFresh, deed, deed-Changed}
use article.Comments.Posting.{Forum}
use article.Comments.Depth.{IsShallow, Change-IsShallow}
use article.Comments.Held.{Passes, Change-IsAway, Change-IsTheirs}
use article.Comments.Changes.{Change}

module _ (A : Table Article) (C : Table Comment) (P : Table Report) (U : Table User)
    (N : NoticeTable) (settings : SiteSettings) (allowed : Bool) where
  -- If every comment leads up to a comment that answers nothing in at most three steps, it does so after an
  -- action that answers ok, where the id of a new comment was not in use.
  pub deed-IsShallow :
      (d : Deed) (auth : Option SessionUser) (forum forum' : Forum A C P U N)
      → IsFresh C d forum.comments
      → deed A C P U N settings allowed d auth forum ≡ ok (succeeded forum')
      → IsShallow C forum.comments
      → IsShallow C forum'.comments
  deed-IsShallow d auth forum forum' new h s =
      let (user, _, c) = deed-Changed A C P U N settings allowed d auth forum forum' new h in
      Change-IsShallow C settings user forum.comments forum'.comments c s

  -- After an action of a reader that answers ok, where the id of a new comment was not in use, an approved
  -- comment either was there just so before, or it is the reader's own, its text is not held for review, and
  -- either comments go live at once, or trusted accounts' do and the reader had enough approved ones.
  pub deed-Passes :
      (d : Deed) (user : SessionUser) (forum forum' : Forum A C P U N) (j : ℕ) (c : Comment)
      → IsFresh C d forum.comments
      → deed A C P U N settings allowed d (some user) forum ≡ ok (succeeded forum')
      → is_staff user.role ≡ false
      → C.find j forum'.comments ≡ some c
      → is_approved c.status ≡ true
      → (C.find j forum.comments ≡ some c)
        ⊎ ((c.user_id ≡ user.id) × Passes C settings user c.body forum.comments)
  deed-Passes d user forum forum' j c new h r f live =
      let (u, e, k) = deed-Changed A C P U N settings allowed d (some user) forum forum' new h in
      let same : u ≡ user = ground arith in
      elim (Change-IsTheirs C settings user forum.comments forum'.comments
        (subst (λ u. Change C settings u forum.comments forum'.comments) same k) r j c f) [
          | inl before ↦ inl before
          | inr (o, p) ↦ inr (o, p live)
        ]

  -- After an action of a reader that answers ok, where the id of a new comment was not in use, a comment that
  -- was hidden or deleted is there, hidden or deleted, with the text it had.
  pub deed-gone :
      (d : Deed) (user : SessionUser) (forum forum' : Forum A C P U N) (j : ℕ) (c : Comment)
      → IsFresh C d forum.comments
      → deed A C P U N settings allowed d (some user) forum ≡ ok (succeeded forum')
      → is_staff user.role ≡ false
      → C.find j forum.comments ≡ some c
      → is_gone c.status ≡ true
      → (b : Comment) × (C.find j forum'.comments ≡ some b)
        × (is_gone b.status ≡ true)
        × (b.body ≡ c.body)
  deed-gone d user forum forum' j c new h r f g =
      let (u, e, k) = deed-Changed A C P U N settings allowed d (some user) forum forum' new h in
      let same : u ≡ user = ground arith in
      Change-IsAway C settings user forum.comments forum'.comments
        (subst (λ u. Change C settings u forum.comments forum'.comments) same k) r j c f g
