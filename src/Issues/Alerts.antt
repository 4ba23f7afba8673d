-- ===== src/Issues/Alerts.antt =====
-- src/lib/issueAlerts.ts: telling people about reports. Pushes to devices are best effort and change
-- nothing here, so they are left out.
use article.Prelude.{
  ℕ, suc, ◌+◌, ◌≡◌, Bool, false, not, ◌&&◌, ◌||◌, Option, none, some, List, [], ◌∷◌, ◌==◌,
  if◌then◌else◌, ltb, length, take, map,
}
use article.Store.{Table, RowOrder}
use article.Auth.Account.{User, is_live}
use article.Issues.Visibility.{IssueRow, IssueStatus, published, same_status}

pub data NoticeType : Type 0 where
  issue_in_your_district your_issue_updated breaking_news comment_reply comment_approved :
      NoticeType

pub record Notice : Type 0 where
  pub user_id : ℕ
  pub type : NoticeType
  pub target_id : ℕ

-- The kinds of notices, numbered to be compared.
unfoldable pub kind_number : NoticeType → ℕ
kind_number issue_in_your_district = 0
kind_number your_issue_updated = 1
kind_number breaking_news = 2
kind_number comment_reply = 3
kind_number comment_approved = 4

abbrev pub same_type : NoticeType → NoticeType → Bool
same_type s t = kind_number s == kind_number t

abbrev pub same_notice : Notice → Notice → Bool
same_notice m n = m.user_id == n.user_id && same_type m.type n.type && m.target_id == n.target_id

-- The table of notifications, with its unique indexes on (userId, type, target), the target being a report, a
-- comment or an article: adding a notice that
-- is there is refused, and leaves the table as it was.
pub record NoticeTable : Type 1 where
  pub Rows : Type 0
  pub has : Notice → Rows → Bool
  pub add : Notice → Rows → Rows
  pub has-add : (n m : Notice) (t : Rows) → has n (add m t) ≡ (same_notice m n || has n t)

pub record AlertResult : Type 0 where
  pub notified : ℕ
  pub truncated : Bool

abbrev pub district_fanout_limit : ℕ
district_fanout_limit = 2000

abbrev pub lives_in : ℕ → Option ℕ → Bool
lives_in d none = false
lives_in d (some e) = e == d

-- Members of the district but the reporter; suspended and erased accounts are no members.
abbrev pub is_resident : ℕ → IssueRow → ℕ → User → Bool
is_resident d issue i u = lives_in d u.district_id && is_live u && not (i == issue.reporter_id)

abbrev pub district_notice : ℕ → ℕ → Notice
district_notice target_id user_id = record {
  user_id = user_id;
  type = issue_in_your_district;
  target_id = target_id;
}

abbrev pub reporter_notice : ℕ → IssueRow → Notice
reporter_notice target_id issue = record {
  user_id = issue.reporter_id;
  type = your_issue_updated;
  target_id = target_id;
}

abbrev pub is_published : IssueStatus → Bool
is_published s = same_status s published

module _ (N : NoticeTable) where
  -- `createMany` with `skipDuplicates`, and how many rows it created.
  unfoldable pub create_many : List Notice → N.Rows → N.Rows × ℕ
  create_many [] t = (t, 0)
  create_many (n ∷ ns) t =
      let (t', created) = create_many ns (N.add n t) in (t', (if N.has n t then 0 else 1) + created)

  module _ (I : Table IssueRow) (U : Table User) (O : RowOrder User) where
    -- `O` is the order in which this query returns the members.
    unfoldable pub residents : IssueRow → U.Rows → List (ℕ × User)
    residents issue users =
        take (suc district_fanout_limit)
          (O.order (U.select (is_resident issue.district issue) users))

    -- The recipients of one pass.
    unfoldable pub recipients : List (ℕ × User) → List (ℕ × User)
    recipients rs =
        if ltb district_fanout_limit (length rs) then take district_fanout_limit rs else rs

    pub notify : ℕ → List (ℕ × User) → N.Rows → N.Rows × AlertResult
    notify id rs notices =
        let (notices', created) =
          create_many (map (λ (e : ℕ × User). district_notice id e.0) (recipients rs)) notices in
        (notices', record { notified = created; truncated = ltb district_fanout_limit (length rs) })

    abbrev pub nothing : N.Rows → N.Rows × AlertResult
    nothing notices = (notices, record { notified = 0; truncated = false })

    pub alert_row : ℕ → Option IssueRow → U.Rows → N.Rows → N.Rows × AlertResult
    alert_row id none users notices = nothing notices
    alert_row id (some issue) users notices =
        if is_published issue.status
        then notify id (residents issue users) notices
        else nothing notices

    unfoldable pub alert_district_of_issue : ℕ → I.Rows → U.Rows → N.Rows → N.Rows × AlertResult
    unfolding alert_row notify
    alert_district_of_issue id issues users notices = alert_row id (I.find id issues) users notices

  module _ (I : Table IssueRow) (U : Table User) where
    abbrev tell : ℕ → Option IssueRow → N.Rows → N.Rows
    tell id none notices = notices
    tell id (some issue) notices = N.add (reporter_notice id issue) notices

    -- One row for a report, however often it changes.
    unfoldable pub alert_reporter_of_change : ℕ → I.Rows → N.Rows → N.Rows
    alert_reporter_of_change id issues notices = tell id (I.find id issues) notices
