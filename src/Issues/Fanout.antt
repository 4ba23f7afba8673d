-- ===== src/Issues/Fanout.antt =====
-- The alert of src/lib/issueAlerts.ts to a district.
use article.Prelude.{
  ℕ, suc, ◌≡◌, ◌≢◌, inl, inr, refl, true, false, Option, none, some, List, [], arith, length, All,
  All-take, any, Bool-cases, Option-cases, ltb, if◌then◌else◌, ◌==◌, ◌∙◌,
}
use article.Store.{Table, RowOrder}
use article.Auth.Account.{User}
use article.Issues.Visibility.{IssueRow, published}
use article.Issues.Alerts.{
  Notice, NoticeTable, same_notice, create_many, residents, recipients, is_resident,
  district_notice, alert_district_of_issue, district_fanout_limit, alert_row, is_published, notify,
}
use article.Issues.Notices.{
  notices_for, any-notices_for, notices_for-any, take_all, ltb→le, has-create_many,
}

module _ (N : NoticeTable) where
  module _ (I : Table IssueRow) (U : Table User) (O : RowOrder User) where
    -- What one alert creates.
    planned : ℕ → Option IssueRow → U.Rows → List Notice
    planned id none users = []
    planned id (some r) users =
        if is_published r.status
        then notices_for id (recipients N I U O (residents N I U O r users))
        else []

    alert_lem :
        (id : ℕ) (issues : I.Rows) (users : U.Rows) (notices : N.Rows)
        → ((alert_district_of_issue N I U O id issues users notices).0
            ≡ (create_many N (planned id (I.find id issues) users) notices).0)
          × ((alert_district_of_issue N I U O id issues users notices).1.notified
              ≡ (create_many N (planned id (I.find id issues) users) notices).1)
    unfolding alert_district_of_issue planned create_many
    alert_lem id issues users notices = go (I.find id issues)
      where
        go :
            (o : Option IssueRow)
            → ((alert_row N I U O id o users notices).0
                ≡ (create_many N (planned id o users) notices).0)
              × ((alert_row N I U O id o users notices).1.notified
                  ≡ (create_many N (planned id o users) notices).1)
        go none = (refl, refl)
        go (some r) = elim (Bool-cases (is_published r.status)) [
          | inl y ↦ rw y (refl, refl)
          | inr x ↦ rw x (refl, refl)
        ]

    All-recipients :
        (P : ℕ × User → Type 0) (r : IssueRow) (users : U.Rows)
        → All P (U.select (is_resident r.district r) users)
        → All P (recipients N I U O (residents N I U O r users))
    unfolding recipients residents
    All-recipients P r users h =
        let rs = residents N I U O r users in
        let a : All P rs =
          All-take P (suc district_fanout_limit)
            (O.order (U.select (is_resident r.district r) users))
            (O.All-order P (U.select (is_resident r.district r) users) h) in
        elim (Bool-cases (ltb district_fanout_limit (length rs))) [
          | inl more ↦ rw more (All-take P district_fanout_limit rs a)
          | inr fits ↦ rw fits a
        ]

    -- A pass that is not cut off is over all members of the district.
    untruncated :
        (id : ℕ) (issues : I.Rows) (users : U.Rows) (notices : N.Rows) (r : IssueRow)
        → I.find id issues ≡ some r
        → is_published r.status ≡ true
        → (alert_district_of_issue N I U O id issues users notices).1.truncated ≡ false
        → ltb district_fanout_limit (length (residents N I U O r users)) ≡ false
    unfolding alert_district_of_issue
    untruncated id issues users notices r f p t = rw (f, alert_row, p, notify) at t

    recipients-untruncated :
        (r : IssueRow) (users : U.Rows)
        → ltb district_fanout_limit (length (residents N I U O r users)) ≡ false
        → recipients N I U O (residents N I U O r users)
          ≡ O.order (U.select (is_resident r.district r) users)
    unfolding recipients residents
    recipients-untruncated r users h =
        rw h (take_all district_fanout_limit _ (ltb→le district_fanout_limit _ h))

    -- An alert about a report that is not published tells nobody.
    pub alert_district-unpublished :
        (id : ℕ) (issues : I.Rows) (users : U.Rows) (notices : N.Rows) (r : IssueRow)
        → I.find id issues ≡ some r
        → r.status ≢ published
        → (alert_district_of_issue N I U O id issues users notices).0 ≡ notices
    unfolding alert_district_of_issue
    alert_district-unpublished id issues users notices r f h = rw f (ground arith)

    -- Somebody who has a notice after an alert and had it not before lives in the district of the
    -- report, which is published, is an active member and is not the reporter.
    pub alert_district_sound :
        (id : ℕ) (issues : I.Rows) (users : U.Rows) (notices : N.Rows) (n : Notice)
        → N.has n (alert_district_of_issue N I U O id issues users notices).0 ≡ true
        → N.has n notices ≡ false
        → (r : IssueRow) × (u : User) × (I.find id issues ≡ some r)
          × (r.status ≡ published)
          × (U.find n.user_id users ≡ some u)
          × (is_resident r.district r n.user_id u ≡ true)
          × (n.target_id ≡ id)
    unfolding planned
    alert_district_sound id issues users notices n h old =
        let (same, _) = alert_lem id issues users notices in
        let new : any (λ m. same_notice m n) (planned id (I.find id issues) users) ≡ true =
          ground (arith, same, has-create_many N n (planned id (I.find id issues) users) notices) in
        elim (Option-cases (I.find id issues)) [
          | inl gone ↦ absurd (ground (arith, new))
          | inr (r, f) ↦
              let P : ℕ × User → Type 0 =
                λ e. (U.find e.0 users ≡ some e.1) × (is_resident r.district r e.0 e.1 ≡ true) in
              let out : is_published r.status ≡ true = ground (arith, new) in
              let listed : any (λ m. same_notice m n)
                    (notices_for id (recipients N I U O (residents N I U O r users)))
                  ≡ true =
                ground (arith, new) in
              let (u, (g, q), e) =
                any-notices_for P id n _ listed
                  (All-recipients P r users (U.select_sound (is_resident r.district r) users)) in
              (r, u, f, ground arith, g, q, e)
        ]

    -- An alert about a published report that is not cut off leaves a notice for every active member
    -- of the district but the reporter.
    pub alert_district_complete :
        (id : ℕ) (issues : I.Rows) (users : U.Rows) (notices : N.Rows) (r : IssueRow) (i : ℕ)
        (u : User)
        → I.find id issues ≡ some r
        → r.status ≡ published
        → U.find i users ≡ some u
        → is_resident r.district r i u ≡ true
        → (alert_district_of_issue N I U O id issues users notices).1.truncated ≡ false
        → N.has (district_notice id i) (alert_district_of_issue N I U O id issues users notices).0
          ≡ true
    unfolding planned
    alert_district_complete id issues users notices r i u f p g q t =
        let out : is_published r.status ≡ true = ground arith in
        let all = recipients-untruncated r users (untruncated id issues users notices r f out t) in
        let there = notices_for-any id i _ (
          O.any-order (λ (e : ℕ × User). e.0 == i) (U.select (is_resident r.district r) users)
          ∙ U.select_complete (is_resident r.district r) users i u g q) in
        let (same, _) = alert_lem id issues users notices in
        let listed : any (λ m. same_notice m (district_notice id i))
              (planned id (I.find id issues) users)
            ≡ true =
          rw (f, planned, out, all) there in
        rw same (
          ground (
            arith,
            has-create_many N (district_notice id i) (planned id (I.find id issues) users) notices,
            listed,
          ))
