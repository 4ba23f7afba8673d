-- ===== src/Comments/Threads.antt =====
-- The rows behind comments (prisma/schema.prisma), src/lib/commentPolicy.ts, how deep a reply nests
-- (src/components/comments/actions.ts), whether a comment goes live (src/lib/settings.ts), and the alerts of
-- src/lib/notifications.ts about it. Pushes to devices change nothing here and are left out.
use article.Prelude.{
  [], ◌∷◌, true, false, none, some, zero, suc, Bool, ℕ, Option, ltb, if◌then◌else◌, Text, ◌+◌, ◌&&◌,
  not, ◌*◌, ◌==◌, leb,
}
use article.Auth.Permissions.{reader, moderator, admin, Tier}
use article.Issues.Alerts.{comment_reply, comment_approved, NoticeTable, Notice, create_many}
use article.Store.{Table}
use article.Auth.Rbac.{SessionUser}
use article.Comments.Spam.{needs_review}

pub data CommentStatus : Type 0 where
  pending approved hidden deleted : CommentStatus

abbrev pub is_approved : CommentStatus → Bool
is_approved approved = true
is_approved _ = false

-- HIDDEN or DELETED: a comment that was taken away.
abbrev pub is_gone : CommentStatus → Bool
is_gone hidden = true
is_gone deleted = true
is_gone _ = false

abbrev pub is_deleted : CommentStatus → Bool
is_deleted deleted = true
is_deleted _ = false

pub record Comment : Type 0 where
  pub article_id : ℕ
  pub user_id : ℕ
  pub parent_id : Option ℕ
  pub body : Text
  pub status : CommentStatus
  pub anonymous : Bool
  pub created_at : ℕ
  pub edited_at : Option ℕ

pub data ReportReason : Type 0 where
  spam abuse misinformation other : ReportReason

-- A row of Report about a comment.
pub record Report : Type 0 where
  pub reporter_id : ℕ
  pub comment_id : ℕ
  pub reason : ReportReason
  pub note : Option Text

pub data CommentModerationMode : Type 0 where
  trusted new_accounts all_held : CommentModerationMode

pub record SiteSettings : Type 0 where
  pub comment_moderation : CommentModerationMode
  pub trusted_after_approved_comments : ℕ

pub data DecisionReason : Type 0 where
  by_staff by_trust by_mode by_spam by_new_account : DecisionReason

abbrev pub max_reply_depth : ℕ
max_reply_depth = 3

-- `now - createdAt < COMMENT_EDIT_WINDOW_MS`
unfoldable pub is_comment_editable : ℕ → ℕ → Bool
is_comment_editable created_at now = ltb now (created_at + 15 * 60 * 1000)

abbrev pub is_staff : Tier → Bool
is_staff reader = false
is_staff moderator = true
is_staff admin = true

abbrev pub decided : Bool → CommentModerationMode → Bool → CommentStatus × DecisionReason
decided true mode enough = (pending, by_spam)
decided false all_held enough = (pending, by_mode)
decided false trusted enough = (approved, by_mode)
decided false new_accounts enough =
    if enough then (approved, by_trust) else (pending, by_new_account)

abbrev pub reply_notice : ℕ → Comment → Comment → Notice
reply_notice id reply parent = record {
  user_id = parent.user_id;
  type = comment_reply;
  target_id = id;
}

abbrev pub approved_notice : ℕ → Comment → Notice
approved_notice id c = record { user_id = c.user_id; type = comment_approved; target_id = id }

module _ (C : Table Comment) where
  abbrev pub parent_of : Option Comment → Option ℕ
  parent_of none = none
  parent_of (some c) = c.parent_id

  -- The loop, with `current.parentId`: it goes on while a parent is left and `depth` is at most
  -- `MAX_REPLY_DEPTH`, as many rounds as its first argument.
  unfoldable pub depth_from : ℕ → ℕ → Option ℕ → C.Rows → ℕ
  depth_from rounds depth none comments = depth
  depth_from zero depth (some p) comments = depth
  depth_from (suc rounds) depth (some p) comments =
      depth_from rounds (depth + 1) (parent_of (C.find p comments)) comments

  unfoldable pub reply_depth : ℕ → C.Rows → ℕ
  unfolding depth_from
  reply_depth parent comments =
      depth_from max_reply_depth 1 (parent_of (C.find parent comments)) comments

  unfoldable pub decide_comment_status :
      SiteSettings → SessionUser → Text → C.Rows → CommentStatus × DecisionReason
  decide_comment_status settings user body comments =
      if is_staff user.role
      then (approved, by_staff)
      else decided (needs_review body) settings.comment_moderation (
          leb settings.trusted_after_approved_comments
            (C.count (λ _ c. c.user_id == user.id && is_approved c.status) comments))

  module _ (N : NoticeTable) where
    abbrev tell_parent : ℕ → Comment → Option Comment → N.Rows → N.Rows
    tell_parent id reply none notices = notices
    tell_parent id reply (some parent) notices =
        if is_approved reply.status
          && is_approved parent.status
          && not (parent.user_id == reply.user_id)
        then (create_many N (reply_notice id reply parent ∷ []) notices).0
        else notices

    abbrev find_parent : Option ℕ → C.Rows → Option Comment
    find_parent none comments = none
    find_parent (some p) comments = C.find p comments

    abbrev tell_of_reply : ℕ → Option Comment → C.Rows → N.Rows → N.Rows
    tell_of_reply id none comments notices = notices
    tell_of_reply id (some reply) comments notices =
        tell_parent id reply (find_parent reply.parent_id comments) notices

    unfoldable pub notify_reply : ℕ → C.Rows → N.Rows → N.Rows
    notify_reply id comments notices = tell_of_reply id (C.find id comments) comments notices

    abbrev tell_author : ℕ → ℕ → Option Comment → N.Rows → N.Rows
    tell_author id moderator_id none notices = notices
    tell_author id moderator_id (some c) notices =
        if is_approved c.status && not (c.user_id == moderator_id)
        then (create_many N (approved_notice id c ∷ []) notices).0
        else notices

    unfoldable pub notify_comment_approved : ℕ → ℕ → C.Rows → N.Rows → N.Rows
    notify_comment_approved id moderator_id comments notices =
        tell_author id moderator_id (C.find id comments) notices
