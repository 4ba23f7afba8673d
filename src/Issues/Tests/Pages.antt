-- ===== src/Issues/Tests/Pages.antt =====
-- What readers see of the report, and whom the alert about it reaches.
use article.Prelude.{
  ◌≡◌, refl, none, some, [], Option, true, false, codes, All, ◌∷◌, arith, Bool, any, List, ℕ,
}
use article.Store.Memory.{select_from, first_from}
use article.Issues.Visibility.{IssueRow, published, Viewer, can_view}
use article.Auth.Account.{User}
use article.Issues.Alerts.{
  district_notice, alert_district_of_issue, create_many, recipients, residents, AlertResult,
  is_resident, kind_number,
}
use article.Issues.Reports.{
  moved, to_public_issue, PlaceFilter, get_issue_for_viewer, list_published_issues,
}
use article.Issues.Fanout.{alert_district_complete, alert_district_sound}
use article.Issues.Privacy.{
  to_public_issue_hides, IsPresentable, list_published_issues-IsPresentable,
}
use article.Issues.Tests.{I, N, U, O, account, after, out, users}
use article.Store.{RowOrder}

abbrev neighbour : Option Viewer
neighbour = some (record { id = 1; permissions = [] })

to_public_issue_hides_example :
    to_public_issue (
      0,
      record out {
        reporter_id = 1;
        reporter = none;
        verified_by = none;
        verified_at = none;
        review_note = none;
      },
    )
    ≡ to_public_issue (0, out)
unfolding moved
to_public_issue_hides_example = to_public_issue_hides 0 out 1 none none none none refl

abbrev anywhere : PlaceFilter
anywhere = record { district = none; province = some 3; category = none; take = none; skip = none }

list_published_issues-IsPresentable_example :
    All IsPresentable (list_published_issues I (λ l. l) anywhere after.issues)
list_published_issues-IsPresentable_example =
    list_published_issues-IsPresentable I (λ l. l) anywhere after.issues (λ P l h. h)

shown :
    get_issue_for_viewer I (codes "road") neighbour after.issues ≡ some (to_public_issue (0, out))
unfolding get_issue_for_viewer first_from moved can_view
shown = refl

abbrev told : N.Rows × AlertResult
told = alert_district_of_issue N I U O 0 after.issues users []

tells : N.has (district_notice 0 1) told.0 ≡ true
unfolding alert_district_of_issue moved create_many recipients residents select_from kind_number
tells = refl

alert_district_sound_example :
    (r : IssueRow) × (u : User) × (I.find 0 after.issues ≡ some r)
    × (r.status ≡ published)
    × (U.find 1 users ≡ some u)
    × (is_resident r.district r 1 u ≡ true)
    × ((district_notice 0 1).target_id ≡ 0)
alert_district_sound_example =
    alert_district_sound N I U O 0 after.issues users [] (district_notice 0 1) tells refl

not_cut_off : told.1.truncated ≡ false
unfolding alert_district_of_issue moved residents select_from
not_cut_off = refl

alert_district_complete_example : N.has (district_notice 0 1) told.0 ≡ true
unfolding moved
alert_district_complete_example =
    alert_district_complete N I U O 0 after.issues users [] out 1 account refl refl refl refl
      not_cut_off

abbrev swapped : List (ℕ × User) → List (ℕ × User)
swapped (x ∷ y ∷ rest) = y ∷ x ∷ rest
swapped rows = rows

All-swapped : (P : ℕ × User → Type 0) (rows : List (ℕ × User)) → All P rows → All P (swapped rows)
All-swapped P [] h = h
All-swapped P (x ∷ []) h = h
All-swapped P (x ∷ y ∷ rest) (p, (q, h)) = (q, (p, h))

any-swapped : (p : ℕ × User → Bool) (rows : List (ℕ × User)) → any p (swapped rows) ≡ any p rows
any-swapped p [] = refl
any-swapped p (x ∷ []) = refl
any-swapped p (x ∷ y ∷ rest) = ground arith

-- The first two rows come the other way round.
abbrev O' : RowOrder User
O' = record { order = swapped; All-order = All-swapped; any-order = any-swapped }

-- Somebody from another district has joined.
abbrev more_users : List (Option User)
more_users = some account ∷ some account ∷ some (record account { district_id = some 6 }) ∷ []
