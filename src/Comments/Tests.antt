-- ===== src/Comments/Tests.antt =====
-- A comment below a story, and one that was hidden; a reader answers the first.
use article.Prelude.{
  [], ◌∷◌, true, false, none, some, ok, refl, zero, suc, ◌≡◌, codes, ◌⊎◌, arith, utf16_length, trim,
  to_lower,
}
use article.Store.Memory.{memory, put}
use article.Issues.Outbox.{outbox}
use article.Auth.Rbac.{succeeded, SessionUser, require_verified_email, require_role}
use article.Auth.Permissions.{reader}
use article.Articles.Records.{live, answer}
use article.Articles.Tests.{A, story}
use article.Comments.Threads.{
  approved, hidden, trusted, Comment, SiteSettings, Report, is_gone, reply_depth,
  decide_comment_status, notify_reply,
}
use article.Issues.Alerts.{comment_reply, create_many}
use article.Comments.Actions.{posts, deed, deed-Changed}
use article.Store.{Table}
use article.Comments.Posting.{CommentInput, Forum, post_comment, is_valid_body}
use article.Comments.Depth.{IsShallow, top}
use article.Auth.Account.{User}
use article.Comments.Promises.{deed-IsShallow, deed-gone, deed-Passes}
use article.Comments.Changes.{Change}
use article.Comments.Spam.{needs_review, starts_link}
use article.Comments.Held.{Passes}

abbrev C : Table Comment
C = memory Comment

abbrev P : Table Report
P = memory Report

abbrev U : Table User
U = memory User

abbrev settings : SiteSettings
settings = record { comment_moderation = trusted; trusted_after_approved_comments = 3 }

abbrev first_one : Comment
first_one = record {
  article_id = 0;
  user_id = 5;
  parent_id = none;
  body = codes "Good";
  status = approved;
  anonymous = false;
  created_at = 10;
  edited_at = none;
}

abbrev hidden_one : Comment
hidden_one = record first_one { body = codes "Bad"; status = hidden }

abbrev forum : Forum A C P U outbox
forum = record {
  articles = some (record story { status = live }) ∷ [];
  comments = some first_one ∷ some hidden_one ∷ [];
  reports = [];
  users = [];
  notices = [];
  audit = [];
}

abbrev person : SessionUser
person = record {
  id = 9;
  role = reader;
  email_confirmed = true;
  permissions = [];
  mfa_enabled = false;
  mfa_uses_app = false;
  must_change_password = false;
}

abbrev answer_form : CommentInput
answer_form = record {
  article_id = 0;
  body = codes "I agree";
  parent_id = some 0;
  anonymous = false;
}

abbrev answer_row : Comment
answer_row = record first_one {
  user_id = 9;
  parent_id = some 0;
  body = codes "I agree";
  created_at = 20;
}

abbrev answered : Forum A C P U outbox
answered = record forum {
  comments = some first_one ∷ some hidden_one ∷ some answer_row ∷ [];
  notices = record { user_id = 5; type = comment_reply; target_id = 2 } ∷ [];
}

answers_it :
    deed A C P U outbox settings true (posts answer_form 20 2) (some person) forum
    ≡ ok (succeeded answered)
unfolding deed post_comment answer require_verified_email require_role is_valid_body utf16_length
    trim reply_depth put decide_comment_status needs_review starts_link to_lower notify_reply
    create_many
answers_it = refl

deed-Changed_example :
    (user : SessionUser) × (some person ≡ some user)
    × Change C settings user forum.comments answered.comments
deed-Changed_example =
    deed-Changed A C P U outbox settings true (posts answer_form 20 2) (some person) forum answered
      refl answers_it

forum-IsShallow : IsShallow C forum.comments
forum-IsShallow zero c f = (0, top 0 first_one refl refl, omega arith)
forum-IsShallow (suc zero) c f = (0, top 1 hidden_one refl refl, omega arith)
forum-IsShallow (suc (suc i)) c f = absurd (ground arith)

deed-IsShallow_example : IsShallow C answered.comments
deed-IsShallow_example =
    deed-IsShallow A C P U outbox settings true (posts answer_form 20 2) (some person) forum
      answered refl answers_it forum-IsShallow

deed-Passes_example :
    (C.find 2 forum.comments ≡ some answer_row)
    ⊎ ((answer_row.user_id ≡ person.id) × Passes C settings person answer_row.body forum.comments)
deed-Passes_example =
    deed-Passes A C P U outbox settings true (posts answer_form 20 2) person forum answered 2
      answer_row refl answers_it refl refl refl

deed-gone_example :
    (b : Comment) × (C.find 1 answered.comments ≡ some b)
    × (is_gone b.status ≡ true)
    × (b.body ≡ hidden_one.body)
deed-gone_example =
    deed-gone A C P U outbox settings true (posts answer_form 20 2) person forum answered 1
      hidden_one refl answers_it refl refl refl
