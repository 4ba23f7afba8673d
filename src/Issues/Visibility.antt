-- ===== src/Issues/Visibility.antt =====
-- src/lib/issueVisibility.ts: what may leave the server about a report, and to whom.
use article.Prelude.{
  ℕ, String, Bool, true, false, not, ◌||◌, Option, none, some, List, [], ◌∷◌, ◌==◌, if◌then◌else◌,
  Text, includes, any,
}

pub data IssueStatus : Type 0 where
  submitted under_review verified published rejected resolved : IssueStatus

abbrev pub same_status : IssueStatus → IssueStatus → Bool
same_status submitted submitted = true
same_status under_review under_review = true
same_status verified verified = true
same_status published published = true
same_status rejected rejected = true
same_status resolved resolved = true
same_status _ _ = false

abbrev pub status_in : List IssueStatus → IssueStatus → Bool
status_in l s = any (λ x. same_status x s) l

abbrev pub public_statuses : List IssueStatus
public_statuses = published ∷ resolved ∷ []

unfoldable pub is_public_status : IssueStatus → Bool
is_public_status s = status_in public_statuses s

pub record Reporter : Type 0 where
  pub id : ℕ
  pub name : Text
  pub handle : Text
  pub avatar_url : Option Text

-- What a byline may say.
pub data PublicReporter : Type 0 where
  named : (id : ℕ) (name handle : Text) (avatar_url : Option Text) → PublicReporter
  anonymous_reporter : PublicReporter

-- A report as the database returns it: the columns with the joined reporter, category, place and
-- media. Category and places are identifiers; dates are milliseconds.
pub record IssueRow : Type 0 where
  pub reference : Text
  pub slug : Text
  pub title : Text
  pub body : Text
  pub status : IssueStatus
  pub anonymous : Bool
  pub reporter_id : ℕ
  pub reporter : Option Reporter
  pub ward : Option ℕ
  pub category : Option ℕ
  pub province : ℕ
  pub district : ℕ
  pub municipality : Option ℕ
  pub media : List ℕ
  pub created_at : ℕ
  pub published_at : Option ℕ
  pub resolved_at : Option ℕ
  pub resolution_note : Option Text
  pub verified_by : Option ℕ
  pub verified_at : Option ℕ
  pub review_note : Option Text

abbrev byline : Option Reporter → PublicReporter
byline none = anonymous_reporter
byline (some r) = named r.id r.name r.handle r.avatar_url

unfoldable pub public_reporter : IssueRow → PublicReporter
public_reporter issue = if issue.anonymous then anonymous_reporter else byline issue.reporter

pub record Viewer : Type 0 where
  pub id : ℕ
  pub permissions : List String

abbrev pub verifier_or_reporter : IssueRow → Option Viewer → Bool
verifier_or_reporter issue none = false
verifier_or_reporter issue (some viewer) =
    if viewer.id == issue.reporter_id then true else includes viewer.permissions "issue.verify"

pub can_view_unpublished : IssueRow → Option Viewer → Bool
can_view_unpublished issue viewer = verifier_or_reporter issue viewer

unfoldable pub can_view : IssueRow → Option Viewer → Bool
unfolding is_public_status can_view_unpublished
can_view issue viewer = is_public_status issue.status || can_view_unpublished issue viewer

unfoldable pub can_see_reporter : IssueRow → Option Viewer → Bool
can_see_reporter issue viewer =
    if not issue.anonymous then true else verifier_or_reporter issue viewer

pub transitions : IssueStatus → List IssueStatus
transitions submitted = under_review ∷ rejected ∷ []
transitions under_review = verified ∷ rejected ∷ submitted ∷ []
transitions verified = published ∷ rejected ∷ under_review ∷ []
transitions published = resolved ∷ []
transitions rejected = under_review ∷ []
transitions resolved = []

unfoldable pub can_transition : IssueStatus → IssueStatus → Bool
unfolding transitions
can_transition from to = status_in (transitions from) to
