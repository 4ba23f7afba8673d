-- ===== src/Issues/Queue.antt =====
-- src/app/(dashboard)/dashboard/issues/actions.ts: moving a report through the queue.
use article.Prelude.{
  ℕ, String, Bool, true, false, Option, none, some, List, [], ◌∷◌, if◌then◌else◌, Text, Result, ok,
  err, ◌>>=◌, trim, is_empty, utf16_length, ltb,
}
use article.Store.{Table, RowOrder}
use article.Audit.{AuditEntry, record_audit}
use article.Auth.Account.{User}
use article.Auth.Rbac.{
  SessionUser, Thrown, Answer, succeeded, failed, require_permission, guard_action,
}
use article.Issues.Visibility.{
  IssueStatus, submitted, under_review, verified, published, rejected, resolved, IssueRow,
}
use article.Issues.Reports.{TransitionError, transition_issue}
use article.Issues.Alerts.{NoticeTable, alert_district_of_issue, alert_reporter_of_change}

pub data QueueError : Type 0 where
  needs_reason needs_outcome : QueueError
  refused : TransitionError → QueueError

-- `reviewNoteSchema` of src/lib/validation/issue.ts: none is a refusal, and an empty note is null.
unfoldable pub review_note : Text → Option (Option Text)
review_note s =
    if ltb 2000 (utf16_length (trim s))
    then none
    else some (if is_empty (trim s) then none else some (trim s))

abbrev pub issue_entry : ℕ → String → ℕ → AuditEntry
issue_entry actor action id = record {
  actor_id = actor;
  action = action;
  target_type = "Issue";
  target_id = id;
}

pub record Desk (I : Table IssueRow) (U : Table User) (N : NoticeTable) : Type 0 where
  pub issues : I.Rows
  pub users : U.Rows
  pub notices : N.Rows
  pub audit : List AuditEntry

-- What an action asks for: where the report goes, who may move it there and how it is logged.
pub record Move : Type 0 where
  pub to : IssueStatus
  pub permission : String
  pub action : String
  pub alerts : Bool

abbrev pub claim : Move
claim = record {
  to = under_review;
  permission = "issue.verify";
  action = "issue.claim";
  alerts = false;
}

abbrev pub release : Move
release = record {
  to = submitted;
  permission = "issue.verify";
  action = "issue.release";
  alerts = false;
}

abbrev pub verify : Move
verify = record {
  to = verified;
  permission = "issue.verify";
  action = "issue.verify";
  alerts = false;
}

abbrev pub reject : Move
reject = record {
  to = rejected;
  permission = "issue.verify";
  action = "issue.reject";
  alerts = false;
}

abbrev pub publish : Move
publish = record {
  to = published;
  permission = "issue.publish";
  action = "issue.publish";
  alerts = true;
}

abbrev pub resolve : Move
resolve = record {
  to = resolved;
  permission = "issue.resolve";
  action = "issue.resolve";
  alerts = false;
}

-- A request to the queue.
pub data Request : Type 0 where
  claims releases verifies publishes : ℕ → Request
  rejects resolves : ℕ → Text → Request

module _ (I : Table IssueRow) (U : Table User) (N : NoticeTable) (O : RowOrder User) where
  abbrev pub Act : Type 0
  Act = Result Thrown (Answer QueueError (Desk I U N))

  -- After the transition: the district hears of a publication, the reporter of every change, and the
  -- move is logged.
  unfoldable pub tell_and_log : Move → ℕ → ℕ → I.Rows → Desk I U N → Desk I U N
  tell_and_log m actor id issues desk =
      let told = (alert_district_of_issue N I U O id issues desk.users desk.notices).0 in
      record {
        issues = issues;
        users = desk.users;
        notices =
            alert_reporter_of_change N I U id issues (if m.alerts then told else desk.notices);
        audit = record_audit (issue_entry actor m.action id) desk.audit;
      }

  abbrev after_transition :
      Move → ℕ → ℕ → Desk I U N → Result TransitionError (IssueStatus × I.Rows) → Act
  after_transition m actor id desk (err e) = ok (failed (refused e))
  after_transition m actor id desk (ok (from, issues)) =
      ok (succeeded (tell_and_log m actor id issues desk))

  unfoldable pub run : Move → ℕ → Option Text → ℕ → Option SessionUser → Desk I U N → Act
  run m id message now auth desk = guard_action do
    session ← require_permission (m.permission ∷ []) auth
    after_transition m session.id id desk
        (transition_issue I id m.to session.id message now desk.issues)

  pub claim_issue : ℕ → ℕ → Option SessionUser → Desk I U N → Act
  claim_issue id now = run claim id none now

  pub release_issue : ℕ → ℕ → Option SessionUser → Desk I U N → Act
  release_issue id now = run release id none now

  pub verify_issue : ℕ → ℕ → Option SessionUser → Desk I U N → Act
  verify_issue id now = run verify id none now

  abbrev with_note :
      QueueError → Option (Option Text) → (Option Text → Desk I U N → Act) → Desk I U N → Act
  with_note e none act desk = ok (failed e)
  with_note e (some none) act desk = ok (failed e)
  with_note e (some (some message)) act desk = act (some message) desk

  pub reject_issue : ℕ → Text → ℕ → Option SessionUser → Desk I U N → Act
  reject_issue id s now auth =
      with_note needs_reason (review_note s) (λ message. run reject id message now auth)

  pub publish_issue : ℕ → ℕ → Option SessionUser → Desk I U N → Act
  publish_issue id now = run publish id none now

  pub resolve_issue : ℕ → Text → ℕ → Option SessionUser → Desk I U N → Act
  resolve_issue id s now auth =
      with_note needs_outcome (review_note s) (λ message. run resolve id message now auth)

  unfoldable pub handle : Request → ℕ → Option SessionUser → Desk I U N → Act
  unfolding claim_issue release_issue verify_issue publish_issue reject_issue resolve_issue
  handle (claims id) now = claim_issue id now
  handle (releases id) now = release_issue id now
  handle (verifies id) now = verify_issue id now
  handle (publishes id) now = publish_issue id now
  handle (rejects id s) now = reject_issue id s now
  handle (resolves id s) now = resolve_issue id s now
