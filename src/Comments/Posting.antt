-- ===== src/Comments/Posting.antt =====
-- src/components/comments/actions.ts: what readers do with comments, with the forms of
-- src/lib/validation/comment.ts. `allowed` is the verdict of the limiter of src/lib/rateLimit.ts, `settings`
-- what src/lib/settings.ts read.
use article.Prelude.{
  true, false, none, some, ok, ◌>>=◌, ◌>>◌, Option, ℕ, Result, Text, String, Bool, leb,
  utf16_length, trim, ◌&&◌, List, ◌==◌, guard, if◌then◌else◌, or_fail, is_some, not,
}
use article.Articles.Records.{refuses, Stop, Article, is_live_status, throwing, answer}
use article.Comments.Threads.{
  deleted, Comment, Report, CommentStatus, ReportReason, SiteSettings, reply_depth, is_approved,
  notify_reply, max_reply_depth, decide_comment_status, is_deleted, is_gone, is_comment_editable,
}
use article.Auth.Permissions.{reader}
use article.Store.{Table}
use article.Audit.{AuditEntry, record_audit}
use article.Auth.Account.{User}
use article.Issues.Alerts.{NoticeTable}
use article.Auth.Rbac.{SessionUser, Thrown, Answer, require_verified_email}

pub data CommentError : Type 0 where
  slow_down invalid_comment unavailable no_parent too_deep comment_gone not_editable too_late
        no_account only_readers :
      CommentError

pub record CommentInput : Type 0 where
  pub article_id : ℕ
  pub body : Text
  pub parent_id : Option ℕ
  pub anonymous : Bool

-- `z.string().trim().min(2).max(5000)`
unfoldable pub is_valid_body : Text → Bool
is_valid_body body = leb 2 (utf16_length (trim body)) && leb (utf16_length (trim body)) 5000

abbrev note_fits : Option Text → Bool
note_fits none = true
note_fits (some s) = leb (utf16_length s) 500

-- What an action answers with: nothing more, or the status of the comment.
abbrev pub comment_entry : ℕ → String → ℕ → AuditEntry
comment_entry actor action id = record {
  actor_id = actor;
  action = action;
  target_type = "Comment";
  target_id = id;
}

abbrev pub is_public : Option Article → Bool
is_public none = false
is_public (some a) = is_live_status a.status

abbrev pub is_reply : Option ℕ → Bool
is_reply none = false
is_reply (some p) = true

abbrev pub CommentStep : Type 0 → Type 0
CommentStep X = Result (Stop CommentError) X

abbrev pub with_state : CommentStatus → Comment → Comment
with_state s c = record c { status = s }

abbrev pub new_comment : SessionUser → CommentInput → CommentStatus → ℕ → Comment
new_comment user input status now = record {
  article_id = input.article_id;
  user_id = user.id;
  parent_id = input.parent_id;
  body = trim input.body;
  status = status;
  anonymous = input.anonymous;
  created_at = now;
  edited_at = none;
}

abbrev pub rewritten : Text → CommentStatus → ℕ → Comment → Comment
rewritten body status now c = record c { body = body; status = status; edited_at = some now }

module _ (C : Table Comment) where
  abbrev pub can_answer : ℕ → Option Comment → Bool
  can_answer article none = false
  can_answer article (some c) = c.article_id == article && is_approved c.status

  abbrev pub reply_allowed : ℕ → Option ℕ → C.Rows → CommentStep (Unit {0})
  reply_allowed article none comments = ok tt
  reply_allowed article (some p) comments = do
    guard (can_answer article (C.find p comments)) (refuses no_parent)
    guard (leb (reply_depth C p comments) max_reply_depth) (refuses too_deep)

module _ (A : Table Article) (C : Table Comment) (P : Table Report) (U : Table User)
    (N : NoticeTable) where
  -- What the actions on comments read and write.
  pub record Forum : Type 0 where
    pub articles : A.Rows
    pub comments : C.Rows
    pub reports : P.Rows
    pub users : U.Rows
    pub notices : N.Rows
    pub audit : List AuditEntry

  abbrev pub written : ℕ → String → ℕ → Forum → Forum
  written actor action id forum = record forum {
    audit = record_audit (comment_entry actor action id) forum.audit;
  }

  abbrev pub told : Bool → ℕ → Forum → Forum
  told announce id forum = record forum {
    notices = if announce then notify_reply C N id forum.comments forum.notices else forum.notices;
  }

  -- `id` and `now` are what the database makes up.
  abbrev pub posting :
      SiteSettings
      → Bool
      → Option SessionUser
      → CommentInput
      → ℕ
      → ℕ
      → Forum
      → CommentStep (CommentStatus × Forum)
  posting settings allowed auth input now id forum = do
    user ← throwing (require_verified_email reader auth)
    guard allowed (refuses slow_down)
    guard (is_valid_body input.body) (refuses invalid_comment)
    guard (is_public (A.find input.article_id forum.articles)) (refuses unavailable)
    reply_allowed C input.article_id input.parent_id forum.comments
    let status = (decide_comment_status C settings user (trim input.body) forum.comments).0
    let added = record forum {
      comments = C.put id (new_comment user input status now) forum.comments;
    }
    ok (status, told (is_approved status && is_reply input.parent_id) id added)

  unfoldable pub post_comment :
      SiteSettings
      → Bool
      → Option SessionUser
      → CommentInput
      → ℕ
      → ℕ
      → Forum
      → Result Thrown (Answer CommentError (CommentStatus × Forum))
  post_comment settings allowed auth input now id forum =
      answer (posting settings allowed auth input now id forum)

  abbrev new_report : ℕ → ℕ → ReportReason → Option Text → Report
  new_report reporter comment reason note = record {
    reporter_id = reporter;
    comment_id = comment;
    reason = reason;
    note = note;
  }

  abbrev pub reporting :
      Option SessionUser → ℕ → ReportReason → Option Text → ℕ → Forum → CommentStep Forum
  reporting auth comment reason note id forum = do
    user ← throwing (require_verified_email reader auth)
    guard (note_fits note) (refuses invalid_comment)
    c ← or_fail (C.find comment forum.comments) (refuses comment_gone)
    let reported = record forum {
      reports = P.put id (new_report user.id comment reason note) forum.reports;
    }
    let before = P.first (λ r. r.comment_id == comment && r.reporter_id == user.id) forum.reports
    ok (if is_some before then forum else written user.id "comment.report" comment reported)

  unfoldable pub report_comment :
      Option SessionUser
      → ℕ
      → ReportReason
      → Option Text
      → ℕ
      → Forum
      → Result Thrown (Answer CommentError Forum)
  report_comment auth comment reason note id forum =
      answer (reporting auth comment reason note id forum)

  abbrev pub editing :
      SiteSettings
      → Bool
      → Option SessionUser
      → ℕ
      → Text
      → ℕ
      → Forum
      → CommentStep (CommentStatus × Forum)
  editing settings allowed auth id body now forum = do
    user ← throwing (require_verified_email reader auth)
    guard allowed (refuses slow_down)
    guard (is_valid_body body) (refuses invalid_comment)
    c ← or_fail (C.find id forum.comments) (refuses not_editable)
    guard (c.user_id == user.id) (refuses not_editable)
    guard (not (is_gone c.status)) (refuses not_editable)
    guard (is_comment_editable c.created_at now) (refuses too_late)
    let status = (decide_comment_status C settings user (trim body) forum.comments).0
    let edited = record forum {
      comments = C.update id (rewritten (trim body) status now) forum.comments;
    }
    ok (status, written user.id "comment.edit" id (told (is_approved status) id edited))

  unfoldable pub edit_comment :
      SiteSettings
      → Bool
      → Option SessionUser
      → ℕ
      → Text
      → ℕ
      → Forum
      → Result Thrown (Answer CommentError (CommentStatus × Forum))
  edit_comment settings allowed auth id body now forum =
      answer (editing settings allowed auth id body now forum)

  abbrev pub deleting_own : Option SessionUser → ℕ → Forum → CommentStep Forum
  deleting_own auth id forum = do
    user ← throwing (require_verified_email reader auth)
    c ← or_fail (C.find id forum.comments) (refuses comment_gone)
    guard (c.user_id == user.id) (refuses comment_gone)
    let taken = record forum { comments = C.update id (with_state deleted) forum.comments }
    ok (if is_deleted c.status then forum else written user.id "comment.delete.own" id taken)

  unfoldable pub delete_own_comment :
      Option SessionUser → ℕ → Forum → Result Thrown (Answer CommentError Forum)
  delete_own_comment auth id forum = answer (deleting_own auth id forum)
