-- ===== src/Support/Payments.antt =====
-- src/lib/contributions.ts: the calls that a pledge goes through, and those on the tiers. The tables are
-- parameters. A call that throws leaves them as they were.
use article.Prelude.{
  ℕ, false, not, Option, none, some, List, if◌then◌else◌, ltb, Text, trim, is_empty, is_identifier,
  to_lower, text_eq, map, length, take, Result, ok, err, ◌>>=◌, ◌>>◌, guard, or_fail,
}
use article.Store.{Table}
use article.Support.Calendar.{Date}
use article.Support.Money.{is_acceptable_amount, sum_paisa}
use article.Support.Contributions.{
  Kind, same_status, Tier, Contribution, ContributionError, PledgeInput, TierInput, active_tier,
  asked, new_contribution, tier_months, failed_row, refunded_row, counts, is_named, interval_ok,
  no_clash, edited_tier, bought_from, fresh_tier, one_off, membership, pending, confirmed,
  choose_membership, not_available, bad_amount, gone, not_pending, not_confirmed, no_reason,
  already, bad_key, no_name, bad_interval, no_record, confirmed_row,
}

module _ (C : Table Contribution) (T : Table Tier) where
  abbrev pub bought : Kind → Option ℕ → T.Rows → Result ContributionError (Option Tier)
  bought one_off tier_id tiers = ok none
  bought membership none tiers = err choose_membership
  bought membership (some id) tiers = do
    tier ← or_fail (active_tier (T.find id tiers)) not_available
    ok (some tier)

  -- `id` and `bytes` are what the database and the random source make up.
  unfoldable pub pledge :
      PledgeInput → ℕ → List ℕ → T.Rows → C.Rows → Result ContributionError C.Rows
  pledge input id bytes tiers rows = do
    tier ← bought input.kind input.tier_id tiers
    guard (is_acceptable_amount (asked input tier).0) bad_amount
    ok (C.put id (new_contribution input tier bytes) rows)

  abbrev pub tier_of : T.Rows → Option ℕ → Option Tier
  tier_of tiers none = none
  tier_of tiers (some id) = T.find id tiers

  unfoldable pub confirm_contribution :
      ℕ → ℕ → Option Text → Option Text → Date → T.Rows → C.Rows → Result ContributionError C.Rows
  confirm_contribution id actor provider_ref staff_note now tiers rows = do
    c ← or_fail (C.find id rows) gone
    guard (same_status c.status pending) (already c.status)
    let months = tier_months (tier_of tiers c.tier_id)
    ok (C.update id (confirmed_row actor provider_ref staff_note now months) rows)

  unfoldable pub fail_contribution : ℕ → ℕ → Option Text → C.Rows → Result ContributionError C.Rows
  fail_contribution id actor staff_note rows = do
    c ← or_fail (C.find id rows) gone
    guard (same_status c.status pending) not_pending
    ok (C.update id (failed_row actor staff_note) rows)

  unfoldable pub refund_contribution :
      ℕ → ℕ → Text → Date → C.Rows → Result ContributionError C.Rows
  refund_contribution id actor staff_note now rows = do
    c ← or_fail (C.find id rows) gone
    guard (same_status c.status confirmed) not_confirmed
    guard (not (is_empty (trim staff_note))) no_reason
    ok (C.update id (refunded_row actor staff_note now) rows)

  -- How many contributions count and what they add up to, with no date to start from.
  unfoldable pub confirmed_totals : C.Rows → ℕ × ℕ
  confirmed_totals rows =
      let counted = C.select (λ _ c. counts c) rows in
      (length counted, sum_paisa (map (λ (e : ℕ × Contribution). e.1.amount_paisa) counted))

  -- Whom the support page names, the newest first by `order`: never with an amount.
  unfoldable pub public_supporters :
      (List (ℕ × Contribution) → List (ℕ × Contribution))
      → ℕ
      → C.Rows
      → List (ℕ × Option Text × Option Date × Kind)
  public_supporters order n rows =
      map (λ (e : ℕ × Contribution). (e.0, e.1.donor_name, e.1.confirmed_at, e.1.kind))
        (take n (order (C.select (λ _ c. is_named c) rows)))

  unfoldable pub create_tier : TierInput → ℕ → T.Rows → Result ContributionError T.Rows
  create_tier input id tiers = do
    let key = map to_lower (trim input.key)
    guard (is_identifier key) bad_key
    guard (not (is_empty (trim input.name))) no_name
    guard (is_acceptable_amount input.amount_paisa) bad_amount
    guard (interval_ok input.interval_months) bad_interval
    no_clash (T.first (λ t. text_eq t.key key) tiers)
    ok (T.put id (fresh_tier input) tiers)

  unfoldable pub update_tier : ℕ → TierInput → T.Rows → Result ContributionError T.Rows
  update_tier id input tiers = do
    guard (not (is_empty (trim input.name))) no_name
    guard (is_acceptable_amount input.amount_paisa) bad_amount
    guard (interval_ok input.interval_months) bad_interval
    found ← or_fail (T.find id tiers) no_record
    ok (T.update id (edited_tier input) tiers)

  abbrev pub retired : ℕ → C.Rows → Option Tier → T.Rows → T.Rows
  retired id rows none tiers = tiers
  retired id rows (some t) tiers =
      if ltb 0 (C.count (λ _ c. bought_from id c) rows)
      then T.update id (λ t. record t { is_active = false }) tiers
      else T.delete id tiers

  -- A tier that somebody bought is taken off the page and kept; one that nobody bought is removed.
  unfoldable pub retire_tier : ℕ → C.Rows → T.Rows → T.Rows
  retire_tier id rows tiers = retired id rows (T.find id tiers) tiers
