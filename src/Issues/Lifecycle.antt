-- ===== src/Issues/Lifecycle.antt =====
-- The lifecycle of a report (`transitionIssue` and `submitIssue` of src/lib/issues.ts).
use article.Prelude.{
  ℕ, ◌≡◌, ◌↔◌, ◌⊎◌, refl, inl, inr, true, Option, some, arith, Text, Bool-cases, Option-cases,
  is_some, ok, ◌==◌, if◌then◌else◌,
}
use article.Store.{Table}
use article.Store.Rows.{found-update, update-found, found-put}
use article.Issues.Visibility.{
  IssueStatus, verified, resolved, IssueRow, is_public_status, can_transition, Reporter,
}
use article.Issues.Reports.{
  moved, transition_issue, submit_issue, SubmitIssueInput, MediaRow, filed,
}

-- The dates of a report agree with its status: it has a publication date exactly while it is public, a
-- resolution date exactly when it is resolved, and nothing is verified or public without the person
-- and the moment of its verification.
pub record IsStamped (r : IssueRow) : Type 0 where
  pub dated : is_some r.published_at ≡ is_public_status r.status
  pub closed : (r.status ≡ resolved) ↔ (is_some r.resolved_at ≡ true)
  pub checked :
      (r.status ≡ verified) ⊎ (is_public_status r.status ≡ true)
      → (is_some r.verified_by ≡ true) × (is_some r.verified_at ≡ true)

moved-IsStamped :
    (to : IssueStatus) (actor : ℕ) (message : Option Text) (now : ℕ) (r : IssueRow)
    → can_transition r.status to ≡ true
    → IsStamped r
    → IsStamped (moved to actor message now r)
unfolding moved can_transition is_public_status
moved-IsStamped to actor message now r h v = ground arith

moved-public :
    (to : IssueStatus) (actor : ℕ) (message : Option Text) (now : ℕ) (r : IssueRow)
    → can_transition r.status to ≡ true
    → is_public_status r.status ≡ true
    → is_public_status (moved to actor message now r).status ≡ true
unfolding moved can_transition is_public_status
moved-public to actor message now r h v = ground arith

pub moved-status :
    (to : IssueStatus) (actor : ℕ) (message : Option Text) (now : ℕ) (r : IssueRow)
    → (moved to actor message now r).status ≡ to
unfolding moved
moved-status to actor message now r = ground arith

module _ (I : Table IssueRow) where
  -- A move that succeeds found the report in a status from which it is allowed, and changed that
  -- report alone.
  pub record Moved (id : ℕ) (to : IssueStatus) (actor : ℕ) (message : Option Text) (now : ℕ)
      (issues : I.Rows) (from : IssueStatus) (issues' : I.Rows) : Type 0 where
    pub row : IssueRow
    pub found : I.find id issues ≡ some row
    pub was : row.status ≡ from
    pub allowed : can_transition from to ≡ true
    pub after : issues' ≡ I.update id (moved to actor message now) issues

  pub transition_issue-Moved :
      (id : ℕ) (to : IssueStatus) (actor : ℕ) (message : Option Text) (now : ℕ) (issues : I.Rows)
      (from : IssueStatus) (issues' : I.Rows)
      → transition_issue I id to actor message now issues ≡ ok (from, issues')
      → Moved id to actor message now issues from issues'
  unfolding transition_issue
  transition_issue-Moved id to actor message now issues from issues' h =
      elim (Option-cases (I.find id issues)) [
        | inl gone ↦ absurd (ground arith)
        | inr (r, f) ↦ record {
          row = r;
          found = f;
          was = ground arith;
          allowed = ground arith;
          after = ground arith;
        }
      ]

  abbrev pub AllStamped : I.Rows → Type 0
  AllStamped issues = (i : ℕ) (r : IssueRow) → I.find i issues ≡ some r → IsStamped r

  -- If the dates of every report agree with its status, they still do after any move that is made.
  pub transition_issue-IsStamped :
      (id : ℕ) (to : IssueStatus) (actor : ℕ) (message : Option Text) (now : ℕ) (issues : I.Rows)
      (from : IssueStatus) (issues' : I.Rows)
      → AllStamped issues
      → transition_issue I id to actor message now issues ≡ ok (from, issues')
      → AllStamped issues'
  transition_issue-IsStamped id to actor message now issues from issues' v h i r f =
      let m = transition_issue-Moved id to actor message now issues from issues' h in
      let (s, p, q) = found-update I i id (moved to actor message now) issues r (rw m.after at f) in
      elim (Bool-cases (id == i)) [
        | inl same ↦
            let e : r ≡ moved to actor message now s = ground (arith, q) in
            let t : s.status ≡ from = ground (arith, m.found, m.was, p) in
            rw e (moved-IsStamped to actor message now s (rw t m.allowed) (v i s p))
        | inr other ↦ let e : r ≡ s = ground (arith, q) in rw e (v i s p)
      ]

  -- A report that is published or resolved is still there, and published or resolved, after any
  -- move that is made of any report.
  pub transition_issue-public :
      (id : ℕ) (to : IssueStatus) (actor : ℕ) (message : Option Text) (now : ℕ) (issues : I.Rows)
      (from : IssueStatus) (issues' : I.Rows) (i : ℕ) (r : IssueRow)
      → transition_issue I id to actor message now issues ≡ ok (from, issues')
      → I.find i issues ≡ some r
      → is_public_status r.status ≡ true
      → (s : IssueRow) × (I.find i issues' ≡ some s) × (is_public_status s.status ≡ true)
  transition_issue-public id to actor message now issues from issues' i r h f p =
      let m = transition_issue-Moved id to actor message now issues from issues' h in
      (
        (if id == i then moved to actor message now r else r),
        rw m.after (update-found I i id (moved to actor message now) issues r f),
        elim (Bool-cases (id == i)) [
          | inl same ↦
              let t : r.status ≡ from = ground (arith, m.found, m.was, f) in
              rw same (moved-public to actor message now r (rw t m.allowed) p)
          | inr other ↦ rw other p
        ],
      )

  -- A move of a report is made exactly when the report is there and its status allows it.
  pub transition_issue-ok_iff :
      (id : ℕ) (to : IssueStatus) (actor : ℕ) (message : Option Text) (now : ℕ) (issues : I.Rows)
      → ((from : IssueStatus) × (issues' : I.Rows) × (transition_issue I id to actor message now
              issues
            ≡ ok (from, issues')))
        ↔ ((r : IssueRow) × (I.find id issues ≡ some r) × (can_transition r.status to ≡ true))
  unfolding transition_issue
  transition_issue-ok_iff id to actor message now issues = (
    λ (from, issues', h).
        let m = transition_issue-Moved id to actor message now issues from issues' h in
        (m.row, m.found, rw m.was m.allowed),
    λ (r, f, c). (r.status, I.update id (moved to actor message now) issues, rw (f, c)),
  )

  filed-IsStamped :
      (D : Table ℕ) (M : Table MediaRow) (now : ℕ) (account : Reporter) (input : SubmitIssueInput)
      (province : ℕ) (reference slug : Text) (media : M.Rows)
      → IsStamped (filed I D M now account input province reference slug media)
  unfolding is_public_status
  filed-IsStamped D M now account input province reference slug media = record {
    dated = refl;
    closed = ground arith;
    checked = λ h. ground arith;
  }

  -- If the dates of every report agree with its status, they still do after a report is filed.
  pub submit_issue-IsStamped :
      (D : Table ℕ) (M : Table MediaRow) (now : ℕ) (account : Reporter) (input : SubmitIssueInput)
      (id : ℕ) (reference slug : Text) (districts : D.Rows) (media : M.Rows)
      (issues issues' : I.Rows)
      → AllStamped issues
      → submit_issue I D M now account input id reference slug districts media issues ≡ ok issues'
      → AllStamped issues'
  unfolding submit_issue
  submit_issue-IsStamped D M now account input id reference slug districts media issues issues' v h
        i r f =
      elim (Option-cases (D.find input.district districts)) [
        | inl unknown ↦ absurd (ground arith)
        | inr (province, e) ↦
            let new = filed I D M now account input province reference slug media in
            let after : issues' ≡ I.put id new issues = ground arith in
            elim (found-put I i id new issues r (rw after at f)) [
              | inl (_, same) ↦
                  rw same (filed-IsStamped D M now account input province reference slug media)
              | inr old ↦ v i r old
            ]
      ]
