-- ===== src/Issues/Reports.antt =====
-- src/lib/issues.ts: reading and writing reports. The table of issues is a parameter.
use article.Prelude.{
  ℕ, String, Bool, true, false, ◌&&◌, Option, none, some, List, ◌==◌, if◌then◌else◌, Text, Result,
  ok, ◌>>=◌, ◌>>◌, guard, or_fail, trim, text_eq, map, take, min, any, drop,
}
use article.Store.{Table}
use article.Issues.Visibility.{
  IssueStatus, submitted, under_review, verified, published, rejected, resolved, status_in,
  public_statuses, IssueRow, PublicReporter, public_reporter, Viewer, can_view, can_transition,
  Reporter,
}

-- A row reduced to what may be shown, every field named.
pub record PublicIssue : Type 0 where
  pub id : ℕ
  pub reference : Text
  pub slug : Text
  pub title : Text
  pub body : Text
  pub status : IssueStatus
  pub anonymous : Bool
  pub ward : Option ℕ
  pub published_at : Option ℕ
  pub resolved_at : Option ℕ
  pub resolution_note : Option Text
  pub created_at : ℕ
  pub category : Option ℕ
  pub province : ℕ
  pub district : ℕ
  pub municipality : Option ℕ
  pub reported_by : PublicReporter
  pub media : List ℕ

unfoldable pub to_public_issue : ℕ × IssueRow → PublicIssue
unfolding public_reporter
to_public_issue (id, row) = record {
  id = id;
  reference = row.reference;
  slug = row.slug;
  title = row.title;
  body = row.body;
  status = row.status;
  anonymous = row.anonymous;
  ward = row.ward;
  published_at = row.published_at;
  resolved_at = row.resolved_at;
  resolution_note = row.resolution_note;
  created_at = row.created_at;
  category = row.category;
  province = row.province;
  district = row.district;
  municipality = row.municipality;
  reported_by = public_reporter row;
  media = row.media;
}

-- `value ?? n`
abbrev or_else : Option ℕ → ℕ → ℕ
or_else none n = n
or_else (some m) n = m

-- `...(filter.districtId ? { districtId } : {})`
abbrev matches : Option ℕ → Option ℕ → Bool
matches none value = true
matches (some wanted) none = false
matches (some wanted) (some value) = wanted == value

pub record PlaceFilter : Type 0 where
  pub district : Option ℕ
  pub province : Option ℕ
  pub category : Option ℕ
  pub take : Option ℕ
  pub skip : Option ℕ

abbrev pub is_listed : PlaceFilter → IssueRow → Bool
is_listed filter r =
    status_in public_statuses r.status
    && matches filter.district (some r.district)
    && matches filter.province (some r.province)
    && matches filter.category r.category

-- The transition's own columns.
unfoldable pub moved : IssueStatus → ℕ → Option Text → ℕ → IssueRow → IssueRow
moved under_review actor message now r = record r {
  status = under_review;
  verified_by = some actor;
}
moved verified actor message now r = record r {
  status = verified;
  verified_by = some actor;
  verified_at = some now;
}
moved published actor message now r = record r { status = published; published_at = some now }
moved resolved actor message now r = record r {
  status = resolved;
  resolved_at = some now;
  resolution_note = message;
}
moved rejected actor message now r = record r {
  status = rejected;
  review_note = message;
  verified_by = some actor;
}
moved submitted actor message now r = record r { status = submitted }

-- IssueTransitionError.
pub data TransitionError : Type 0 where
  report_gone : TransitionError
  cannot_become : IssueStatus → IssueStatus → TransitionError

pub record SubmitIssueInput : Type 0 where
  pub title : Text
  pub body : Text
  pub category : Option ℕ
  pub district : ℕ
  pub municipality : Option ℕ
  pub ward : Option ℕ
  pub anonymous : Bool
  pub media : List ℕ

-- A media row: who uploaded it.
pub record MediaRow : Type 0 where
  pub uploaded_by : ℕ

abbrev listed_in : List ℕ → ℕ → Bool
listed_in ids id = any (λ x. x == id) ids

module _ (I : Table IssueRow) where
  -- The newest first, by `order`; a page is at most 50 long.
  unfoldable pub list_published_issues :
      (List (ℕ × IssueRow) → List (ℕ × IssueRow)) → PlaceFilter → I.Rows → List PublicIssue
  unfolding to_public_issue
  list_published_issues order filter issues = map to_public_issue (
      take (min (or_else filter.take 20) 50)
        (drop (or_else filter.skip 0) (order (I.select (λ _ r. is_listed filter r) issues))))

  unfoldable pub count_published_issues : PlaceFilter → I.Rows → ℕ
  count_published_issues filter issues = I.count (λ _ r. is_listed filter r) issues

  abbrev shown_to : Option Viewer → Option (ℕ × IssueRow) → Option PublicIssue
  shown_to viewer none = none
  shown_to viewer (some (id, row)) =
      if can_view row viewer then some (to_public_issue (id, row)) else none

  unfoldable pub get_issue_for_viewer : Text → Option Viewer → I.Rows → Option PublicIssue
  get_issue_for_viewer slug viewer issues =
      shown_to viewer (I.first (λ r. text_eq r.slug slug) issues)

  unfoldable pub transition_issue :
      ℕ → IssueStatus → ℕ → Option Text → ℕ → I.Rows → Result TransitionError (IssueStatus × I.Rows)
  transition_issue id to actor note now issues = do
    issue ← or_fail (I.find id issues) report_gone
    guard (can_transition issue.status to) (cannot_become issue.status to)
    ok (issue.status, I.update id (moved to actor note now) issues)

  module _ (D : Table ℕ) (M : Table MediaRow) where
    -- The province is the district's, and only the reporter's own media are attached. The identifier,
    -- the reference and the slug are made by the database and by lib/issueRef.ts.
    abbrev pub filed : ℕ → Reporter → SubmitIssueInput → ℕ → Text → Text → M.Rows → IssueRow
    filed now account input province reference slug media = record {
      reference = reference;
      slug = slug;
      title = trim input.title;
      body = trim input.body;
      status = submitted;
      anonymous = input.anonymous;
      reporter_id = account.id;
      reporter = some account;
      ward = input.ward;
      category = input.category;
      province = province;
      district = input.district;
      municipality = input.municipality;
      media =
          map (λ (e : ℕ × MediaRow). e.0)
            (M.select (λ id m. listed_in input.media id && m.uploaded_by == account.id) media);
      created_at = now;
      published_at = none;
      resolved_at = none;
      resolution_note = none;
      verified_by = none;
      verified_at = none;
      review_note = none;
    }

    -- The districts' rows are their provinces; an unknown district is an error.
    unfoldable pub submit_issue :
        ℕ
        → Reporter
        → SubmitIssueInput
        → ℕ
        → Text
        → Text
        → D.Rows
        → M.Rows
        → I.Rows
        → Result String I.Rows
    submit_issue now account input id reference slug districts media issues = do
      province ← or_fail (D.find input.district districts) "Unknown district"
      ok (I.put id (filed now account input province reference slug media) issues)
