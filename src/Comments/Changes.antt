-- ===== src/Comments/Changes.antt =====
-- What the actions on comments do to the comments, as a relation between the rows before and after.
use article.Prelude.{true, false, none, some, ok, ℕ, ◌≡◌, Text, trim}
use article.Comments.Posting.{CommentInput, reply_allowed, new_comment, rewritten, with_state}
use article.Comments.Threads.{
  deleted, Comment, SiteSettings, CommentStatus, decide_comment_status, is_gone,
  is_comment_editable, is_staff,
}
use article.Store.{Table}
use article.Auth.Rbac.{SessionUser}

module _ (C : Table Comment) (settings : SiteSettings) where
  -- The status that the rules give to a text of somebody.
  abbrev pub status_for : SessionUser → Text → C.Rows → CommentStatus
  status_for user body t = (decide_comment_status C settings user body t).0

  pub data Change (user : SessionUser) (t : C.Rows) : C.Rows → Type 0 where
    posted :
        (input : CommentInput) (now id : ℕ)
        → C.find id t ≡ none
        → reply_allowed C input.article_id input.parent_id t ≡ ok tt
        → Change user t
            (C.put id (new_comment user input (status_for user (trim input.body) t) now) t)
    edited :
        (id : ℕ) (body : Text) (now : ℕ) (c : Comment)
        → C.find id t ≡ some c
        → c.user_id ≡ user.id
        → is_gone c.status ≡ false
        → is_comment_editable c.created_at now ≡ true
        → Change user t (C.update id (rewritten body (status_for user body t) now) t)
    taken_back :
        (id : ℕ) (c : Comment)
        → C.find id t ≡ some c
        → c.user_id ≡ user.id
        → Change user t (C.update id (with_state deleted) t)
    left : Change user t t
    moderated :
        (id : ℕ) (status : CommentStatus)
        → is_staff user.role ≡ true
        → Change user t (C.update id (with_state status) t)

  -- The rows that a site can have, from none.
  pub data Reachable : C.Rows → Type 0 where
    empty : (t : C.Rows) → ((j : ℕ) → C.find j t ≡ none) → Reachable t
    later : (user : SessionUser) (t t' : C.Rows) → Reachable t → Change user t t' → Reachable t'
