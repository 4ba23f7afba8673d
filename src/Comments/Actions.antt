-- ===== src/Comments/Actions.antt =====
-- The actions on comments as one step, and that each makes a change of the relation in Changes.
use article.Prelude.{
  true, none, some, ok, err, refl, inl, inr, bind-ok, then-ok, or_fail-ok, guard-ok, ok-inj, Result,
  ℕ, Text, ◌≡◌, Option, arith, Bool, guard, or_fail, ◌==◌, subst, not, ap, trim, ltb, String,
  if◌then◌else◌, Bool-cases,
}
use article.Comments.Changes.{posted, edited, taken_back, left, moderated, Change}
use article.Comments.Threads.{
  approved, hidden, deleted, Comment, Report, is_staff, SiteSettings, CommentStatus, is_gone,
  is_comment_editable, is_deleted,
}
use article.Auth.Permissions.{reader, moderator, admin, tier_rank, Tier}
use article.Auth.Rbac.{
  succeeded, sign_in_first, forbidden, failed, require_role, require_verified_email, Thrown, Answer,
  SessionUser, not_authorized,
}
use article.Articles.Records.{refuses, Article, throwing}
use article.Articles.Saves.{throwing-ok, require_role-ok}
use article.Articles.Inversion.{answer-ok}
use article.Comments.Posting.{
  slow_down, invalid_comment, unavailable, comment_gone, not_editable, too_late, CommentInput,
  Forum, editing, posting, CommentError, post_comment, edit_comment, is_valid_body,
  delete_own_comment, is_public, reply_allowed, deleting_own, with_state,
}
use article.Store.{Table}
use article.Auth.Account.{User}
use article.Issues.Alerts.{NoticeTable}
use article.Comments.Moderation.{
  approve_comment, hide_comment, delete_comment, moderate, moderating,
}

-- What is asked for, with the clock and the id of a new row.
pub data Deed : Type 0 where
  posts : CommentInput → ℕ → ℕ → Deed
  edits : ℕ → Text → ℕ → Deed
  deletes_own approves hides deletes : ℕ → Deed

-- The id of a new row is not in use.
abbrev pub IsFresh : (C : Table Comment) → Deed → C.Rows → Type 0
IsFresh C (posts input now id) t = C.find id t ≡ none
IsFresh C _ t = Unit

-- The answer without the status of the comment.
abbrev pub without_status {ℓ} :
    {E X Y : Type ℓ} → Result Thrown (Answer E (X × Y)) → Result Thrown (Answer E Y)
without_status (ok (succeeded (x, y))) = ok (succeeded y)
without_status (ok sign_in_first) = ok sign_in_first
without_status (ok (forbidden t)) = ok (forbidden t)
without_status (ok (failed e)) = ok (failed e)
without_status (err t) = err t

without_status-ok :
    {E X Y : Type 0} (m : Result Thrown (Answer E (X × Y))) (y : Y)
    → without_status m ≡ ok (succeeded y)
    → (x : X) × (m ≡ ok (succeeded (x, y)))
without_status-ok (ok (succeeded (x, z))) y h = (x, ground arith)
without_status-ok (ok sign_in_first) y h = absurd (ground arith)
without_status-ok (ok (forbidden t)) y h = absurd (ground arith)
without_status-ok (ok (failed e)) y h = absurd (ground arith)
without_status-ok (err t) y h = absurd (ground arith)

pub require_verified_email-ok :
    (tier : Tier) (auth : Option SessionUser) (user : SessionUser)
    → require_verified_email tier auth ≡ ok user
    → auth ≡ some user
unfolding require_verified_email require_role
require_verified_email-ok tier none user h = absurd (ground arith)
require_verified_email-ok tier (some u) user h = ground arith

rank-is_staff :
    (t : Tier) → not (ltb (tier_rank t) (tier_rank moderator)) ≡ true → is_staff t ≡ true
rank-is_staff reader h = absurd (ground arith)
rank-is_staff moderator h = refl
rank-is_staff admin h = refl

moderator-is_staff :
    (auth : Option SessionUser) (user : SessionUser)
    → require_role moderator auth ≡ ok user
    → is_staff user.role ≡ true
unfolding require_role
moderator-is_staff none user h = absurd (ground arith)
moderator-is_staff (some u) user h =
    then-ok (guard (not (ltb (tier_rank u.role) (tier_rank moderator))) not_authorized) _ user h
      (λ e k.
        subst (λ (u : SessionUser). is_staff u.role ≡ true) (ok-inj u user _ refl k)
          (rank-is_staff u.role (guard-ok _ _ e)))

module _ (A : Table Article) (C : Table Comment) (P : Table Report) (U : Table User)
    (N : NoticeTable) (settings : SiteSettings) (allowed : Bool) where
  unfoldable pub deed :
      Deed
      → Option SessionUser
      → Forum A C P U N
      → Result Thrown (Answer CommentError (Forum A C P U N))
  deed (posts input now id) auth forum =
      without_status (post_comment A C P U N settings allowed auth input now id forum)
  deed (edits id body now) auth forum =
      without_status (edit_comment A C P U N settings allowed auth id body now forum)
  deed (deletes_own id) auth forum = delete_own_comment A C P U N auth id forum
  deed (approves id) auth forum = approve_comment A C P U N auth id forum
  deed (hides id) auth forum = hide_comment A C P U N auth id forum
  deed (deletes id) auth forum = delete_comment A C P U N auth id forum

  -- Somebody who is signed in has made a change.
  abbrev pub Changed : Option SessionUser → Forum A C P U N → Forum A C P U N → Type 0
  Changed auth forum forum' =
      (user : SessionUser) × (auth ≡ some user)
      × Change C settings user forum.comments forum'.comments

  posting-Changed :
      (auth : Option SessionUser) (input : CommentInput) (now id : ℕ) (s : CommentStatus)
      (forum forum' : Forum A C P U N)
      → C.find id forum.comments ≡ none
      → posting A C P U N settings allowed auth input now id forum ≡ ok (s, forum')
      → Changed auth forum forum'
  posting-Changed auth input now id s forum forum' new h0 =
      bind-ok (throwing (require_verified_email reader auth)) _ (s, forum') h0
        (λ user e0 h1.
          then-ok (guard allowed (refuses slow_down)) _ (s, forum') h1
            (λ _ h2.
              then-ok (guard (is_valid_body input.body) (refuses invalid_comment)) _ (s, forum') h2
                (λ _ h3.
                  then-ok
                    (guard (is_public (A.find input.article_id forum.articles))
                      (refuses unavailable))
                    _ (s, forum') h3
                    (λ _ h4.
                      then-ok (reply_allowed C input.article_id input.parent_id forum.comments) _
                        (s, forum') h4
                        (λ e4 h5. (
                          user,
                          require_verified_email-ok reader auth user (throwing-ok _ user e0),
                          subst (λ t. Change C settings user forum.comments t)
                              (ap (λ (p : CommentStatus × Forum A C P U N). p.1.comments)
                                (ok-inj _ (s, forum') _ refl h5))
                              (posted input now id new e4),
                        ))))))

  editing-Changed :
      (auth : Option SessionUser) (id : ℕ) (body : Text) (now : ℕ) (s : CommentStatus)
      (forum forum' : Forum A C P U N)
      → editing A C P U N settings allowed auth id body now forum ≡ ok (s, forum')
      → Changed auth forum forum'
  editing-Changed auth id body now s forum forum' h0 =
      bind-ok (throwing (require_verified_email reader auth)) _ (s, forum') h0
        (λ user e0 h1.
          then-ok (guard allowed (refuses slow_down)) _ (s, forum') h1
            (λ _ h2.
              then-ok (guard (is_valid_body body) (refuses invalid_comment)) _ (s, forum') h2
                (λ _ h3.
                  bind-ok (or_fail (C.find id forum.comments) (refuses not_editable)) _ (s, forum')
                    h3
                    (λ c e3 h4.
                      then-ok (guard (c.user_id == user.id) (refuses not_editable)) _ (s, forum') h4
                        (λ e4 h5.
                          then-ok (guard (not (is_gone c.status)) (refuses not_editable)) _
                            (s, forum') h5
                            (λ e5 h6.
                              then-ok
                                (guard (is_comment_editable c.created_at now) (refuses too_late)) _
                                (s, forum') h6
                                (λ e6 h7. (
                                  user,
                                  require_verified_email-ok reader auth user
                                      (throwing-ok _ user e0),
                                  subst (λ t. Change C settings user forum.comments t)
                                      (ap (λ (p : CommentStatus × Forum A C P U N). p.1.comments)
                                        (ok-inj _ (s, forum') _ refl h7))
                                      (edited id (trim body) now c (or_fail-ok _ _ c e3)
                                        (ground (arith, guard-ok _ _ e4))
                                        (ground (arith, guard-ok _ _ e5)) (guard-ok _ _ e6)),
                                ))))))))

  deleting_own-Changed :
      (auth : Option SessionUser) (id : ℕ) (forum forum' : Forum A C P U N)
      → deleting_own A C P U N auth id forum ≡ ok forum'
      → Changed auth forum forum'
  deleting_own-Changed auth id forum forum' h0 =
      bind-ok (throwing (require_verified_email reader auth)) _ forum' h0 (λ user e0 h1.
        bind-ok (or_fail (C.find id forum.comments) (refuses comment_gone)) _ forum' h1 (λ c e1 h2.
          then-ok (guard (c.user_id == user.id) (refuses comment_gone)) _ forum' h2 (λ e2 h3.
            let taken = C.update id (with_state deleted) forum.comments in
            let f = ok-inj _ forum' _ refl h3 in
            let e : (if is_deleted c.status then forum.comments else taken) ≡ forum'.comments =
              elim (Bool-cases (is_deleted c.status)) [
                | inl y ↦ rw y (ap (λ (f : Forum A C P U N). f.comments) (rw y at f))
                | inr n ↦ rw n (ap (λ (f : Forum A C P U N). f.comments) (rw n at f))
              ] in
            (
              user,
              require_verified_email-ok reader auth user (throwing-ok _ user e0),
              subst (λ t. Change C settings user forum.comments t) e
                  (elim (Bool-cases (is_deleted c.status)) [
                    | inl y ↦ rw y left
                    | inr n ↦
                        rw n
                          (taken_back id c (or_fail-ok _ _ c e1) (ground (arith, guard-ok _ _ e2)))
                  ]),
            ))))

  moderating-Changed :
      (status : CommentStatus) (action : String) (auth : Option SessionUser) (id : ℕ)
      (forum forum' : Forum A C P U N)
      → moderating A C P U N status action auth id forum ≡ ok forum'
      → Changed auth forum forum'
  moderating-Changed status action auth id forum forum' h0 =
      bind-ok (throwing (require_role moderator auth)) _ forum' h0 (λ user e0 h1.
        bind-ok (or_fail (C.find id forum.comments) (refuses comment_gone)) _ forum' h1 (λ c e1 h2.
          let r = throwing-ok _ user e0 in
          (
            user,
            require_role-ok moderator auth user r,
            subst (λ t. Change C settings user forum.comments t)
                (ap (λ (f : Forum A C P U N). f.comments) (ok-inj _ forum' _ refl h2))
                (moderated id status (moderator-is_staff auth user r)),
          )))

  -- An action on a comment that answers ok, with an id for a new comment that was not in use, was asked by a
  -- signed-in user, and changes the comments as one of the allowed changes does: a new comment that its
  -- thread allows, with the status that the rules give its text; an edit of a comment of one's own that is
  -- not hidden or deleted, within the time allowed, with the status that the rules give the new text; one's
  -- own comment deleted; a status set by a moderator or administrator; or nothing.
  pub deed-Changed :
      (d : Deed) (auth : Option SessionUser) (forum forum' : Forum A C P U N)
      → IsFresh C d forum.comments
      → deed d auth forum ≡ ok (succeeded forum')
      → Changed auth forum forum'
  unfolding deed post_comment edit_comment delete_own_comment approve_comment hide_comment
      delete_comment moderate
  deed-Changed (posts input now id) auth forum forum' new h =
      let (s, k) = without_status-ok _ forum' h in
      posting-Changed auth input now id s forum forum' new (answer-ok _ (s, forum') k)
  deed-Changed (edits id body now) auth forum forum' new h =
      let (s, k) = without_status-ok _ forum' h in
      editing-Changed auth id body now s forum forum' (answer-ok _ (s, forum') k)
  deed-Changed (deletes_own id) auth forum forum' new h =
      deleting_own-Changed auth id forum forum' (answer-ok _ forum' h)
  deed-Changed (approves id) auth forum forum' new h =
      moderating-Changed approved "comment.approve" auth id forum forum' (answer-ok _ forum' h)
  deed-Changed (hides id) auth forum forum' new h =
      moderating-Changed hidden "comment.hide" auth id forum forum' (answer-ok _ forum' h)
  deed-Changed (deletes id) auth forum forum' new h =
      moderating-Changed deleted "comment.delete" auth id forum forum' (answer-ok _ forum' h)
