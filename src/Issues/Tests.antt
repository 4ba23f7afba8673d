-- ===== src/Issues/Tests.antt =====
-- One report on its way to the public, in a district with two members.
pub mod Pages
use article.Prelude.{
  ◌≡◌, refl, none, some, [], ◌∷◌, ok, ℕ, List, Option, true, Bool, arith, subst, false,
  if◌then◌else◌, codes, includes, any, ◌||◌, Bool-cases, inr, inl, sym, ◌≤◌, All, text_eq, ◌↔◌, ◌⊎◌,
}
use article.Store.{Table, RowOrder}
use article.Store.Memory.{memory, update, select_from, put, first_from}
use article.Issues.Visibility.{
  IssueRow, verified, is_public_status, published, can_transition, Reporter, Viewer, resolved,
  IssueStatus, can_view,
}
use article.Auth.Account.{User, active}
use article.Issues.Alerts.{
  NoticeTable, Notice, same_notice, reporter_notice, district_notice, alert_reporter_of_change,
  alert_district_of_issue, create_many, recipients, residents, AlertResult, is_resident,
  district_fanout_limit,
}
use article.Auth.Rbac.{SessionUser, succeeded, guard_action, require_permission}
use article.Issues.Queue.{Desk, handle, publish, publishes, issue_entry, run, tell_and_log}
use article.Issues.Moves.{Handled, handle-published, handle-Handled}
use article.Issues.Lifecycle.{
  AllStamped, IsStamped, transition_issue-IsStamped, transition_issue-public,
  submit_issue-IsStamped, transition_issue-ok_iff,
}
use article.Issues.Reports.{
  transition_issue, moved, SubmitIssueInput, to_public_issue, filed, PlaceFilter,
  get_issue_for_viewer, submit_issue, MediaRow, list_published_issues,
}
use article.Auth.Permissions.{reader, moderator}
use article.Audit.{record_audit}
use article.Issues.Fanout.{alert_district_complete, alert_district_sound}
use article.Issues.Privacy.{
  get_issue_for_viewer-some, to_public_issue_hides, IsPresentable,
  list_published_issues-IsPresentable, can_view_iff,
}
use article.Issues.Outbox.{outbox}

abbrev I : Table IssueRow
I = memory IssueRow

abbrev U : Table User
U = memory User

abbrev N : NoticeTable
N = outbox

-- The rows in the order of their identifiers.
abbrev O : RowOrder User
O = record { order = λ l. l; All-order = λ P l h. h; any-order = λ p l. refl }

abbrev account : User
account = record {
  email = [];
  handle = [];
  name = [];
  role_id = none;
  district_id = some 5;
  role = reader;
  status = active;
  anonymised = false;
  email_verified = true;
  must_change_password = false;
  mfa_enabled = false;
  mfa_secret = none;
  mfa_recovery_codes = none;
  session_version = 0;
}

abbrev users : List (Option User)
users = some account ∷ some account ∷ []

-- Account 0 reports without a name, and account 7 has verified it.
abbrev report : IssueRow
report = record {
  reference = codes "ISS-1";
  slug = codes "road";
  title = codes "Road";
  body = codes "Gone";
  status = verified;
  anonymous = true;
  reporter_id = 0;
  reporter = some (record { id = 0; name = codes "A"; handle = codes "a"; avatar_url = none });
  ward = none;
  category = none;
  province = 3;
  district = 5;
  municipality = none;
  media = [];
  created_at = 10;
  published_at = none;
  resolved_at = none;
  resolution_note = none;
  verified_by = some 7;
  verified_at = some 20;
  review_note = none;
}

abbrev out : IssueRow
out = moved published 7 none 30 report

abbrev publisher : SessionUser
publisher = record {
  id = 7;
  role = moderator;
  email_confirmed = true;
  permissions = "issue.publish" ∷ [];
  mfa_enabled = false;
  mfa_uses_app = false;
  must_change_password = false;
}

abbrev before : Desk I U N
before = record { issues = some report ∷ []; users = users; notices = []; audit = [] }

abbrev after : Desk I U N
after = record {
  issues = some out ∷ [];
  users = users;
  notices = reporter_notice 0 report ∷ district_notice 0 1 ∷ [];
  audit = issue_entry 7 "issue.publish" 0 ∷ [];
}

publishes_it : handle I U N O (publishes 0) 30 (some publisher) before ≡ ok (succeeded after)
unfolding handle run guard_action require_permission transition_issue can_transition tell_and_log
    update alert_reporter_of_change record_audit alert_district_of_issue moved create_many
    recipients residents select_from
publishes_it = refl

handle-Handled_example : Handled I U N O (publishes 0) 30 (some publisher) before after
handle-Handled_example =
    handle-Handled I U N O (publishes 0) 30 (some publisher) before after publishes_it

not_yet : is_public_status report.status ≡ false
unfolding is_public_status
not_yet = refl

now_out : is_public_status out.status ≡ true
unfolding is_public_status moved
now_out = refl

handle-published_example :
    (verified ≡ verified)
    × ((session : SessionUser) × (some publisher ≡ some session)
        × (includes session.permissions "issue.publish" ≡ true))
handle-published_example =
    handle-published I U N O (publishes 0) 30 (some publisher) before after 0 report out
      publishes_it refl refl not_yet now_out

the_report : (i : ℕ) (r : IssueRow) → I.find i before.issues ≡ some r → report ≡ r
the_report i r f = ground arith

report-IsStamped : IsStamped report
unfolding is_public_status
report-IsStamped = record { dated = refl; closed = ground arith; checked = λ _. (refl, refl) }

goes_out : transition_issue I 0 published 7 none 30 before.issues ≡ ok (verified, after.issues)
unfolding transition_issue can_transition update
goes_out = refl

stamped : AllStamped I before.issues
stamped i r f = subst IsStamped (the_report i r f) report-IsStamped

transition_issue-IsStamped_example : AllStamped I after.issues
transition_issue-IsStamped_example =
    transition_issue-IsStamped I 0 published 7 none 30 before.issues verified after.issues stamped
      goes_out

abbrev solved : IssueRow
solved = moved resolved 7 (some (codes "Mended")) 40 out

solves :
    transition_issue I 0 resolved 7 (some (codes "Mended")) 40 after.issues
    ≡ ok (published, some solved ∷ [])
unfolding transition_issue can_transition moved update
solves = refl

abbrev D : Table ℕ
D = memory ℕ

abbrev M : Table MediaRow
M = memory MediaRow

abbrev reporter : Reporter
reporter = record { id = 0; name = codes "A"; handle = codes "a"; avatar_url = none }

abbrev form : SubmitIssueInput
form = record {
  title = codes " Bridge ";
  body = codes "Fell";
  category = none;
  district = 1;
  municipality = none;
  ward = none;
  anonymous = false;
  media = 0 ∷ 1 ∷ [];
}

abbrev pictures : List (Option MediaRow)
pictures = some (record { uploaded_by = 0 }) ∷ some (record { uploaded_by = 4 }) ∷ []

abbrev districts : List (Option ℕ)
districts = some 2 ∷ some 3 ∷ []

abbrev two_reports : List (Option IssueRow)
two_reports =
    some report
    ∷ some (filed I D M 50 reporter form 3 (codes "ISS-2") (codes "bridge") pictures)
    ∷ []

files :
    submit_issue I D M 50 reporter form 1
      (codes "ISS-2")
      (codes "bridge")
      districts
      pictures
      before.issues
    ≡ ok two_reports
unfolding submit_issue put
files = refl
