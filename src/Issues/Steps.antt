-- ===== src/Issues/Steps.antt =====
-- The life of a report, which the actions of src/app/(dashboard)/dashboard/issues/actions.ts are for.
use article.Prelude.{
  ℕ, String, ◌≡◌, ◌⊎◌, refl, true, false, Option, none, some, arith, Text, trim, is_empty, ltb,
  utf16_length, Bool,
}
use article.Issues.Visibility.{
  IssueRow, submitted, under_review, verified, published, rejected, resolved, can_transition,
  is_public_status, IssueStatus,
}
use article.Issues.Reports.{moved}
use article.Issues.Queue.{
  Request, claims, releases, verifies, publishes, rejects, resolves, review_note,
}

-- A note that is not empty and not too long.
abbrev pub IsNote : Text → Type 0
IsNote s = (is_empty (trim s) ≡ false) × (ltb 2000 (utf16_length (trim s)) ≡ false)

-- The life of a report in the queue: what a request of `actor` at `now` may make of a report, the
-- permission that it asks for and the name that it goes by in the log. A report is claimed when it is
-- filed, or taken back once it was verified or rejected; it is given back or verified while it is under
-- review; it is rejected, with the reason, until it is public; only a verified report is published, and
-- only a published one is resolved, with the outcome.
pub data Step (now actor : ℕ) (r : IssueRow) : Request → String → String → IssueRow → Type 0 where
  claiming :
      (id : ℕ)
      → (r.status ≡ submitted) ⊎ ((r.status ≡ verified) ⊎ (r.status ≡ rejected))
      → Step now actor r
          (claims id)
          "issue.verify"
          "issue.claim"
          (record r { status = under_review; verified_by = some actor })
  releasing :
      (id : ℕ)
      → r.status ≡ under_review
      → Step now actor r
          (releases id)
          "issue.verify"
          "issue.release"
          (record r { status = submitted })
  verifying :
      (id : ℕ)
      → r.status ≡ under_review
      → Step now actor r
          (verifies id)
          "issue.verify"
          "issue.verify"
          (record r { status = verified; verified_by = some actor; verified_at = some now })
  rejecting :
      (id : ℕ) (s : Text)
      → IsNote s
      → (r.status ≡ submitted) ⊎ ((r.status ≡ under_review) ⊎ (r.status ≡ verified))
      → Step now actor r
          (rejects id s)
          "issue.verify"
          "issue.reject"
          (record r { status = rejected; review_note = some (trim s); verified_by = some actor })
  publishing :
      (id : ℕ)
      → r.status ≡ verified
      → Step now actor r
          (publishes id)
          "issue.publish"
          "issue.publish"
          (record r { status = published; published_at = some now })
  resolving :
      (id : ℕ) (s : Text)
      → IsNote s
      → r.status ≡ published
      → Step now actor r
          (resolves id s)
          "issue.resolve"
          "issue.resolve"
          (record r { status = resolved; resolved_at = some now; resolution_note = some (trim s) })

abbrev pub report_of : Request → ℕ
report_of (claims id) = id
report_of (releases id) = id
report_of (verifies id) = id
report_of (publishes id) = id
report_of (rejects id s) = id
report_of (resolves id s) = id

abbrev pub is_publication : Request → Bool
is_publication (publishes id) = true
is_publication _ = false

pub moved-reporter :
    (to : IssueStatus) (actor : ℕ) (message : Option Text) (now : ℕ) (r : IssueRow)
    → (moved to actor message now r).reporter_id ≡ r.reporter_id
unfolding moved
moved-reporter to actor message now r = ground arith

pub claim-Step :
    (now actor id : ℕ) (r : IssueRow)
    → can_transition r.status under_review ≡ true
    → Step now actor r
        (claims id)
        "issue.verify"
        "issue.claim"
        (moved under_review actor none now r)
unfolding moved can_transition
claim-Step now actor id r h = claiming id (ground arith)

pub release-Step :
    (now actor id : ℕ) (r : IssueRow)
    → can_transition r.status submitted ≡ true
    → Step now actor r
        (releases id)
        "issue.verify"
        "issue.release"
        (moved submitted actor none now r)
unfolding moved can_transition
release-Step now actor id r h = releasing id (ground arith)

pub verify-Step :
    (now actor id : ℕ) (r : IssueRow)
    → can_transition r.status verified ≡ true
    → Step now actor r (verifies id) "issue.verify" "issue.verify" (moved verified actor none now r)
unfolding moved can_transition
verify-Step now actor id r h = verifying id (ground arith)

pub reject-Step :
    (now actor id : ℕ) (s : Text) (r : IssueRow)
    → IsNote s
    → can_transition r.status rejected ≡ true
    → Step now actor r
        (rejects id s)
        "issue.verify"
        "issue.reject"
        (moved rejected actor (some (trim s)) now r)
unfolding moved can_transition
reject-Step now actor id s r n h = rejecting id s n (ground arith)

pub publish-Step :
    (now actor id : ℕ) (r : IssueRow)
    → can_transition r.status published ≡ true
    → Step now actor r
        (publishes id)
        "issue.publish"
        "issue.publish"
        (moved published actor none now r)
unfolding moved can_transition
publish-Step now actor id r h = publishing id (ground arith)

pub resolve-Step :
    (now actor id : ℕ) (s : Text) (r : IssueRow)
    → IsNote s
    → can_transition r.status resolved ≡ true
    → Step now actor r
        (resolves id s)
        "issue.resolve"
        "issue.resolve"
        (moved resolved actor (some (trim s)) now r)
unfolding moved can_transition
resolve-Step now actor id s r n h = resolving id s n (ground arith)

pub review_note-IsNote :
    (s message : Text) → review_note s ≡ some (some message) → IsNote s × (message ≡ trim s)
unfolding review_note
review_note-IsNote s message h = (ground arith)

-- Only publishing makes a report public that was not.
pub Step-public :
    (now actor : ℕ) (r : IssueRow) (q : Request) (permission action : String) (r' : IssueRow)
    → Step now actor r q permission action r'
    → is_public_status r.status ≡ false
    → is_public_status r'.status ≡ true
    → (r.status ≡ verified) × (permission ≡ "issue.publish")
unfolding is_public_status
Step-public now actor r _ _ _ _ (publishing id p) before after = (p, refl)
Step-public now actor r _ _ _ _ (claiming id p) before after = absurd (ground arith)
Step-public now actor r _ _ _ _ (releasing id p) before after = absurd (ground arith)
Step-public now actor r _ _ _ _ (verifying id p) before after = absurd (ground arith)
Step-public now actor r _ _ _ _ (rejecting id s n p) before after = absurd (ground arith)
Step-public now actor r _ _ _ _ (resolving id s n p) before after =
    absurd (ground (arith, rw p at before))
