-- ===== src/Issues/Moves.antt =====
-- The actions of the queue (src/app/(dashboard)/dashboard/issues/actions.ts) and the desk.
use article.Prelude.{
  ℕ, String, ◌≡◌, ◌⊎◌, inl, inr, refl, true, false, Option, none, some, ◌∷◌, arith, Text, includes,
  Bool-cases, Option-cases, Result-cases, ok, ◌==◌, if◌then◌else◌, trim, ap, ◌∙◌, ◌||◌,
}
use article.Store.{Table, RowOrder}
use article.Audit.{record_audit}
use article.Auth.Account.{User}
use article.Auth.Rbac.{SessionUser, succeeded, require_permission, guard_action}
use article.Issues.Visibility.{IssueRow, verified, can_transition, is_public_status, IssueStatus}
use article.Issues.Reports.{transition_issue, moved}
use article.Issues.Lifecycle.{Moved, transition_issue-Moved}
use article.Issues.Alerts.{
  Notice, NoticeTable, same_notice, reporter_notice, alert_reporter_of_change,
  alert_district_of_issue,
}
use article.Issues.Steps.{
  Step, report_of, is_publication, moved-reporter, claim-Step, release-Step, verify-Step,
  reject-Step, publish-Step, resolve-Step, review_note-IsNote, Step-public,
}
use article.Issues.Queue.{
  Desk, Move, tell_and_log, run, Request, claims, releases, verifies, publishes, rejects, resolves,
  handle, claim, release, verify, reject, publish, resolve, review_note,
}

module _ (I : Table IssueRow) (U : Table User) (N : NoticeTable) (O : RowOrder User) where
  -- What a request that answers ok has done to the desk.
  pub record Handled (q : Request) (now : ℕ) (auth : Option SessionUser) (desk desk' : Desk I U N)
      : Type 0 where
    pub session : SessionUser
    pub permission : String
    pub action : String
    pub row : IssueRow
    pub row' : IssueRow
    pub signed_in : auth ≡ some session
    pub permitted : includes session.permissions permission ≡ true
    pub found : I.find (report_of q) desk.issues ≡ some row
    pub step : Step now session.id row q permission action row'
    pub issues :
        (j : ℕ)
        → I.find j desk'.issues ≡ (if report_of q == j then some row' else I.find j desk.issues)
    pub users : desk'.users ≡ desk.users
    pub told : N.has (reporter_notice (report_of q) row) desk'.notices ≡ true
    pub quiet :
        (n : Notice)
        → (is_publication q ≡ true)
          ⊎ (N.has n desk'.notices
              ≡ (same_notice (reporter_notice (report_of q) row) n || N.has n desk.notices))
    pub logged :
        desk'.audit
        ≡ record {
          actor_id = session.id;
          action = action;
          target_type = "Issue";
          target_id = report_of q;
        }
          ∷ desk.audit

  -- Telling the reporter adds their notice and no other.
  reporter_told :
      (id : ℕ) (issues : I.Rows) (x r : IssueRow) (notices : N.Rows) (n : Notice)
      → I.find id issues ≡ some x
      → x.reporter_id ≡ r.reporter_id
      → N.has n (alert_reporter_of_change N I U id issues notices)
        ≡ (same_notice (reporter_notice id r) n || N.has n notices)
  unfolding alert_reporter_of_change
  reporter_told id issues x r notices n f e = rw (f, N.has-add, e) refl

  moved-find :
      (id : ℕ) (to : IssueStatus) (actor : ℕ) (message : Option Text) (now : ℕ) (issues : I.Rows)
      (from : IssueStatus) (issues' : I.Rows)
      (t : Moved I id to actor message now issues from issues') (j : ℕ)
      → I.find j issues'
        ≡ (if id == j then some (moved to actor message now t.row) else I.find j issues)
  moved-find id to actor message now issues from issues' t j =
      ap (I.find j) t.after
      ∙ ground (arith, t.found, I.find-update j id (moved to actor message now) issues)

  -- Nobody but the reporter hears of a move that does not alert the district.
  told_of_move :
      (m : Move) (actor id : ℕ) (issues : I.Rows) (x r : IssueRow) (desk : Desk I U N)
      → I.find id issues ≡ some x
      → x.reporter_id ≡ r.reporter_id
      → let notices = (tell_and_log I U N O m actor id issues desk).notices in
        (N.has (reporter_notice id r) notices ≡ true)
        × ((n : Notice)
            → (m.alerts ≡ true)
              ⊎ (N.has n notices ≡ (same_notice (reporter_notice id r) n || N.has n desk.notices)))
  unfolding tell_and_log
  told_of_move m actor id issues x r desk f e =
      let told = (alert_district_of_issue N I U O id issues desk.users desk.notices).0 in
      (
        reporter_told id issues x r (if m.alerts then told else desk.notices) (reporter_notice id r)
              f e
            ∙ ground arith,
        λ n. elim (Bool-cases m.alerts) [
          | inl loud ↦ inl loud
          | inr mute ↦ inr (rw mute (reporter_told id issues x r desk.notices n f e))
        ],
      )

  made-Handled :
      (q : Request) (m : Move) (message : Option Text) (now : ℕ) (session : SessionUser)
      (desk : Desk I U N) (from : IssueStatus) (issues : I.Rows)
      → is_publication q ≡ m.alerts
      → ((actor : ℕ) (r : IssueRow)
          → can_transition r.status m.to ≡ true
          → Step now actor r q m.permission m.action (moved m.to actor message now r))
      → includes session.permissions m.permission ≡ true
      → transition_issue I (report_of q) m.to session.id message now desk.issues ≡ ok (from, issues)
      → Handled q now
          (some session)
          desk
          (tell_and_log I U N O m session.id (report_of q) issues desk)
  unfolding tell_and_log record_audit
  made-Handled q m message now session desk from issues k steps held e =
      let id = report_of q in
      let t = transition_issue-Moved I id m.to session.id message now desk.issues from issues e in
      let new = moved m.to session.id message now t.row in
      let after = moved-find id m.to session.id message now desk.issues from issues t in
      let (told, quiet) =
        told_of_move m session.id id issues new t.row desk (ground (arith, after id))
          (moved-reporter m.to session.id message now t.row) in
      record {
        session = session;
        permission = m.permission;
        action = m.action;
        row = t.row;
        row' = new;
        signed_in = refl;
        permitted = held;
        found = t.found;
        step = steps session.id t.row (rw t.was t.allowed);
        issues = after;
        users = refl;
        told = told;
        quiet = rw k quiet;
        logged = refl;
      }

  run-Handled :
      (q : Request) (m : Move) (message : Option Text) (now : ℕ) (auth : Option SessionUser)
      (desk desk' : Desk I U N)
      → is_publication q ≡ m.alerts
      → ((actor : ℕ) (r : IssueRow)
          → can_transition r.status m.to ≡ true
          → Step now actor r q m.permission m.action (moved m.to actor message now r))
      → run I U N O m (report_of q) message now auth desk ≡ ok (succeeded desk')
      → Handled q now auth desk desk'
  unfolding run require_permission guard_action
  run-Handled q m message now none desk desk' k steps h = absurd (ground arith)
  run-Handled q m message now (some session) desk desk' k steps h =
      let id = report_of q in
      elim (Bool-cases (includes session.permissions m.permission)) [
        | inl held ↦
            elim (Result-cases (transition_issue I id m.to session.id message now desk.issues)) [
              | inl ((from, issues), e) ↦
                  let is : desk' ≡ tell_and_log I U N O m session.id id issues desk =
                    ground arith in
                  rw is (made-Handled q m message now session desk from issues k steps held e)
              | inr (x, e) ↦ absurd (ground arith)
            ]
        | inr missing ↦ absurd (ground arith)
      ]

  -- A request to the queue that answers ok was made by somebody who is signed in and holds the permission
  -- of a step that the life of a report allows it. It changes the report that it names as that step says,
  -- no other report and no account; the reporter has a notice of it, and no other notice is new unless it
  -- publishes; and it adds one entry to the log, with the person, the step and the report.
  pub handle-Handled :
      (q : Request) (now : ℕ) (auth : Option SessionUser) (desk desk' : Desk I U N)
      → handle I U N O q now auth desk ≡ ok (succeeded desk')
      → Handled q now auth desk desk'
  unfolding handle
  handle-Handled (claims id) now auth desk desk' h =
      run-Handled (claims id) claim none now auth desk desk' refl (λ a r. claim-Step now a id r) h
  handle-Handled (releases id) now auth desk desk' h =
      run-Handled (releases id) release none now auth desk desk' refl
        (λ a r. release-Step now a id r) h
  handle-Handled (verifies id) now auth desk desk' h =
      run-Handled (verifies id) verify none now auth desk desk' refl (λ a r. verify-Step now a id r)
        h
  handle-Handled (publishes id) now auth desk desk' h =
      run-Handled (publishes id) publish none now auth desk desk' refl
        (λ a r. publish-Step now a id r) h
  handle-Handled (rejects id s) now auth desk desk' h = elim (Option-cases (review_note s)) [
    | inl bad ↦ absurd (ground arith)
    | inr (none, e) ↦ absurd (ground arith)
    | inr (some message, e) ↦
        let (note, is) = review_note-IsNote s message e in
        run-Handled (rejects id s) reject (some (trim s)) now auth desk desk' refl
          (λ a r. reject-Step now a id s r note) (rw (e, is) at h)
  ]
  handle-Handled (resolves id s) now auth desk desk' h = elim (Option-cases (review_note s)) [
    | inl bad ↦ absurd (ground arith)
    | inr (none, e) ↦ absurd (ground arith)
    | inr (some message, e) ↦
        let (note, is) = review_note-IsNote s message e in
        run-Handled (resolves id s) resolve (some (trim s)) now auth desk desk' refl
          (λ a r. resolve-Step now a id s r note) (rw (e, is) at h)
  ]

  -- If a request to the queue that answers ok makes a report public that was not, then the report
  -- had been verified and the request was made by somebody who may publish.
  pub handle-published :
      (q : Request) (now : ℕ) (auth : Option SessionUser) (desk desk' : Desk I U N) (i : ℕ)
      (r s : IssueRow)
      → handle I U N O q now auth desk ≡ ok (succeeded desk')
      → I.find i desk.issues ≡ some r
      → I.find i desk'.issues ≡ some s
      → is_public_status r.status ≡ false
      → is_public_status s.status ≡ true
      → (r.status ≡ verified)
        × ((session : SessionUser) × (auth ≡ some session)
            × (includes session.permissions "issue.publish" ≡ true))
  handle-published q now auth desk desk' i r s h f g before after =
      let c = handle-Handled q now auth desk desk' h in
      elim (Bool-cases (report_of q == i)) [
        | inr other ↦
            let same : r ≡ s = ground (arith, c.issues i) in
            absurd (ground (arith, rw same at before))
        | inl same ↦
            let was : r ≡ c.row = ground (arith, c.found) in
            let is : s ≡ c.row' = ground (arith, c.issues i) in
            let (v, out) =
              Step-public now c.session.id c.row q c.permission c.action c.row' c.step
                (rw was at before) (rw is at after) in
            (rw was v, (c.session, c.signed_in, rw out at c.permitted))
      ]
