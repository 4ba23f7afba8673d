-- ===== src/Comments/Moderation.antt =====
-- src/app/(dashboard)/dashboard/comments/actions.ts: the moderation queue of comments.
use article.Prelude.{
  ok, ◌>>=◌, ◌>>◌, ℕ, ◌+◌, Bool, Option, String, if◌then◌else◌, Result, or_fail, guard, not,
}
use article.Articles.Records.{refuses, Article, throwing, answer}
use article.Comments.Threads.{
  approved, deleted, hidden, Comment, Report, CommentStatus, notify_reply, notify_comment_approved,
  is_staff, is_approved,
}
use article.Auth.Account.{suspended, User}
use article.Auth.Permissions.{moderator}
use article.Comments.Posting.{
  comment_gone, no_account, only_readers, Forum, CommentStep, CommentError, with_state, written,
}
use article.Store.{Table}
use article.Audit.{AuditEntry, record_audit}
use article.Issues.Alerts.{NoticeTable}
use article.Auth.Rbac.{SessionUser, Thrown, Answer, require_role}

abbrev suspend_entry : ℕ → ℕ → AuditEntry
suspend_entry actor id = record {
  actor_id = actor;
  action = "user.suspend";
  target_type = "User";
  target_id = id;
}

abbrev pub suspended_row : User → User
suspended_row u = record u { status = suspended; session_version = u.session_version + 1 }

module _ (A : Table Article) (C : Table Comment) (P : Table Report) (U : Table User)
    (N : NoticeTable) where
  abbrev pub announced : Bool → ℕ → ℕ → Forum A C P U N → Forum A C P U N
  announced approve id moderator_id forum = record forum {
    notices =
        if approve
        then notify_reply C N id forum.comments
            (notify_comment_approved C N id moderator_id forum.comments forum.notices)
        else forum.notices;
  }

  abbrev pub moderating :
      CommentStatus
      → String
      → Option SessionUser
      → ℕ
      → Forum A C P U N
      → CommentStep (Forum A C P U N)
  moderating status action auth id forum = do
    user ← throwing (require_role moderator auth)
    c ← or_fail (C.find id forum.comments) (refuses comment_gone)
    let changed = record forum { comments = C.update id (with_state status) forum.comments }
    ok (written A C P U N user.id action id (announced (is_approved status) id user.id changed))

  unfoldable pub moderate :
      CommentStatus
      → String
      → Option SessionUser
      → ℕ
      → Forum A C P U N
      → Result Thrown (Answer CommentError (Forum A C P U N))
  moderate status action auth id forum = answer (moderating status action auth id forum)

  unfoldable pub approve_comment :
      Option SessionUser
      → ℕ
      → Forum A C P U N
      → Result Thrown (Answer CommentError (Forum A C P U N))
  approve_comment auth id forum = moderate approved "comment.approve" auth id forum

  unfoldable pub hide_comment :
      Option SessionUser
      → ℕ
      → Forum A C P U N
      → Result Thrown (Answer CommentError (Forum A C P U N))
  hide_comment auth id forum = moderate hidden "comment.hide" auth id forum

  unfoldable pub delete_comment :
      Option SessionUser
      → ℕ
      → Forum A C P U N
      → Result Thrown (Answer CommentError (Forum A C P U N))
  delete_comment auth id forum = moderate deleted "comment.delete" auth id forum

  abbrev pub suspending : Option SessionUser → ℕ → Forum A C P U N → CommentStep (Forum A C P U N)
  suspending auth id forum = do
    user ← throwing (require_role moderator auth)
    u ← or_fail (U.find id forum.users) (refuses no_account)
    guard (not (is_staff u.role)) (refuses only_readers)
    ok (record forum {
      users = U.update id suspended_row forum.users;
      audit = record_audit (suspend_entry user.id id) forum.audit;
    })

  unfoldable pub suspend_commenter :
      Option SessionUser
      → ℕ
      → Forum A C P U N
      → Result Thrown (Answer CommentError (Forum A C P U N))
  suspend_commenter auth id forum = answer (suspending auth id forum)
