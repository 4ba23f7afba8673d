-- ===== src/Issues/Privacy.antt =====
-- Who sees a report, and who is named in it (src/lib/issueVisibility.ts, src/lib/issues.ts).
use article.Prelude.{
  ℕ, ◌≡◌, ◌↔◌, ◌⊎◌, refl, inl, inr, true, Option, none, some, List, arith, Text, text_eq, includes,
  All, All-take, All-drop, All-map, Bool-cases, Option-cases,
}
use article.Store.{Table}
use article.Issues.Visibility.{
  IssueStatus, published, resolved, IssueRow, anonymous_reporter, Reporter, Viewer, can_view,
  is_public_status,
}
use article.Issues.Reports.{
  PublicIssue, to_public_issue, PlaceFilter, is_listed, list_published_issues, get_issue_for_viewer,
}

public_cases :
    {P : Type 0} (r : IssueRow)
    → is_public_status r.status ≡ true
    → (r.status ≡ published) ⊎ (r.status ≡ resolved) ⊎ P
unfolding is_public_status
public_cases r h = elim (Status-cases r.status h) [ inl p ↦ inl p | inr q ↦ inr (inl q) ]
  where
    Status-cases : (s : IssueStatus) → is_public_status s ≡ true → (s ≡ published) ⊎ (s ≡ resolved)
    Status-cases s e = ground arith

-- A report is seen by everybody if it is published or resolved, and otherwise by exactly its reporter
-- and whoever may verify.
pub can_view_iff :
    (r : IssueRow) (viewer : Option Viewer)
    → (can_view r viewer ≡ true) ↔ (
        (r.status ≡ published)
        ⊎ (r.status ≡ resolved)
        ⊎ ((v : Viewer) × (viewer ≡ some v)
            × ((v.id ≡ r.reporter_id) ⊎ (includes v.permissions "issue.verify" ≡ true))))
unfolding can_view
can_view_iff r none = (λ h. public_cases r (ground arith), λ h. ground arith)
can_view_iff r (some v) = (
  λ h. elim (Bool-cases (is_public_status r.status)) [
    | inl y ↦ public_cases r y
    | inr x ↦ inr (inr (v, refl, ground arith))
  ],
  λ h. ground arith,
)

-- What the public is shown of an anonymous report does not change with the account that filed it,
-- who verified it and when, or the note of the review.
pub to_public_issue_hides :
    (id : ℕ) (r : IssueRow) (reporter_id : ℕ) (reporter : Option Reporter)
    (verified_by verified_at : Option ℕ) (review_note : Option Text)
    → r.anonymous ≡ true
    → to_public_issue (
      id,
      record r {
        reporter_id = reporter_id;
        reporter = reporter;
        verified_by = verified_by;
        verified_at = verified_at;
        review_note = review_note;
      },
    )
      ≡ to_public_issue (id, r)
unfolding to_public_issue
to_public_issue_hides id r reporter_id reporter verified_by verified_at review_note h = rw h

-- A shown report is published or resolved, and an anonymous one names nobody.
abbrev pub IsPresentable : PublicIssue → Type 0
IsPresentable p =
    (is_public_status p.status ≡ true) × (p.anonymous ≡ true → p.reported_by ≡ anonymous_reporter)

module _ (I : Table IssueRow) where
  -- Every report on a public page is published or resolved, and an anonymous one names nobody,
  -- whatever the filter and the order, if ordering keeps what holds of all rows.
  pub list_published_issues-IsPresentable :
      (order : List (ℕ × IssueRow) → List (ℕ × IssueRow)) (filter : PlaceFilter) (issues : I.Rows)
      → ((P : ℕ × IssueRow → Type 0) (l : List (ℕ × IssueRow)) → All P l → All P (order l))
      → All IsPresentable (list_published_issues I order filter issues)
  unfolding list_published_issues is_public_status
  list_published_issues-IsPresentable order filter issues moves =
      let P : ℕ × IssueRow → Type 0 =
        λ e. (I.find e.0 issues ≡ some e.1) × (is_listed filter e.1 ≡ true) in
      All-map P IsPresentable to_public_issue (λ e h. (ground (arith, h.1), ground arith)) _
        (All-take P _ _
          (All-drop P _ _ (moves P _ (I.select_sound (λ _ r. is_listed filter r) issues))))

  -- What somebody is shown under a slug is a report with that slug that they may see.
  pub get_issue_for_viewer-some :
      (slug : Text) (viewer : Option Viewer) (issues : I.Rows) (p : PublicIssue)
      → get_issue_for_viewer I slug viewer issues ≡ some p
      → (id : ℕ) × (r : IssueRow) × (I.find id issues ≡ some r)
        × (text_eq r.slug slug ≡ true)
        × (can_view r viewer ≡ true)
        × (p ≡ to_public_issue (id, r))
  unfolding get_issue_for_viewer
  get_issue_for_viewer-some slug viewer issues p h =
      elim (Option-cases (I.first (λ r. text_eq r.slug slug) issues)) [
        | inl gone ↦ absurd (ground arith)
        | inr ((id, r), e) ↦
            let (f, q) = I.first-some (λ r. text_eq r.slug slug) issues id r e in
            (id, r, f, q, ground arith, ground arith)
      ]
