-- ===== src/Support/Records.antt =====
-- What becomes of a pledge in src/lib/contributions.ts.
use article.Prelude.{
  ℕ, ◌≡◌, ◌↔◌, refl, true, false, Option, some, List, arith, Text, Result, ok, Option-cases,
  is_some, inl, inr, ◌⊎◌,
}
use article.Store.{Table}
use article.Support.Calendar.{Date}
use article.Support.Contributions.{
  Status, pending, confirmed, failed, refunded, membership, Contribution, ContributionError,
  PledgeInput, Tier, confirmed_row, failed_row, refunded_row, new_contribution, tier_months,
}
use article.Support.Payments.{confirm_contribution, fail_contribution, refund_contribution, tier_of}

-- The record of a contribution agrees with its status: a moment of confirmation exactly when the money
-- came, a moment of refund exactly when it went back, a person who decided exactly when it is no longer
-- pending, a reason for every refund, and a paid period for every membership that was confirmed.
pub record IsRecorded (c : Contribution) : Type 0 where
  pub paid : (is_some c.confirmed_at ≡ true) ↔ ((c.status ≡ confirmed) ⊎ (c.status ≡ refunded))
  pub returned : (is_some c.refunded_at ≡ true) ↔ (c.status ≡ refunded)
  pub decided : (is_some c.confirmed_by ≡ false) ↔ (c.status ≡ pending)
  pub reasoned : c.status ≡ refunded → is_some c.staff_note ≡ true
  pub covered :
      c.kind ≡ membership
      → (c.status ≡ confirmed) ⊎ (c.status ≡ refunded)
      → is_some c.period_end ≡ true

pub confirmed_row-IsRecorded :
    (actor : ℕ) (ref staff_note : Option Text) (now : Date) (months : ℕ) (c : Contribution)
    → c.status ≡ pending
    → IsRecorded c
    → IsRecorded (confirmed_row actor ref staff_note now months c)
unfolding confirmed_row
confirmed_row-IsRecorded actor ref staff_note now months c p v = ground arith

pub failed_row-IsRecorded :
    (actor : ℕ) (staff_note : Option Text) (c : Contribution)
    → c.status ≡ pending
    → IsRecorded c
    → IsRecorded (failed_row actor staff_note c)
unfolding failed_row
failed_row-IsRecorded actor staff_note c p v = ground arith

pub refunded_row-IsRecorded :
    (actor : ℕ) (staff_note : Text) (now : Date) (c : Contribution)
    → c.status ≡ confirmed
    → IsRecorded c
    → IsRecorded (refunded_row actor staff_note now c)
unfolding refunded_row
refunded_row-IsRecorded actor staff_note now c p v = ground arith

pub new-IsRecorded :
    (input : PledgeInput) (tier : Option Tier) (bytes : List ℕ)
    → IsRecorded (new_contribution input tier bytes)
unfolding new_contribution
new-IsRecorded input tier bytes = ground arith

-- What a treasurer may do with a contribution.
pub data Ruling : Type 0 where
  confirm fail : Ruling
  refund : Ruling

abbrev pub required : Ruling → Status
required confirm = pending
required fail = pending
required refund = confirmed

abbrev pub outcome : Ruling → Status
outcome confirm = confirmed
outcome fail = failed
outcome refund = refunded

-- What a ruling leaves alone.
abbrev pub SameGift : Contribution → Contribution → Type 0
SameGift c d =
    (d.reference ≡ c.reference)
    × (d.kind ≡ c.kind)
    × (d.amount_paisa ≡ c.amount_paisa)
    × (d.currency ≡ c.currency)
    × (d.user_id ≡ c.user_id)
    × (d.tier_id ≡ c.tier_id)
    × (d.donor_name ≡ c.donor_name)
    × (d.anonymous ≡ c.anonymous)

module _ (C : Table Contribution) (T : Table Tier) where
  unfoldable pub rule :
      Ruling → ℕ → ℕ → Option Text → Text → Date → T.Rows → C.Rows → Result ContributionError C.Rows
  rule confirm id actor ref words now tiers rows =
      confirm_contribution C T id actor ref (some words) now tiers rows
  rule fail id actor ref words now tiers rows = fail_contribution C T id actor (some words) rows
  rule refund id actor ref words now tiers rows = refund_contribution C T id actor words now rows

  -- A ruling that is accepted found the contribution in the one status it is for, and changed that
  -- contribution alone.
  pub record Ruled (k : Ruling) (id : ℕ) (rows rows' : C.Rows) : Type 0 where
    pub gift : Contribution
    pub edit : Contribution → Contribution
    pub found : C.find id rows ≡ some gift
    pub was : gift.status ≡ required k
    pub becomes : (c : Contribution) → (edit c).status ≡ outcome k
    pub same : (c : Contribution) → SameGift c (edit c)
    pub records : (c : Contribution) → c.status ≡ required k → IsRecorded c → IsRecorded (edit c)
    pub after : rows' ≡ C.update id edit rows

  pub rule-Ruled :
      (k : Ruling) (id actor : ℕ) (ref : Option Text) (words : Text) (now : Date) (tiers : T.Rows)
      (rows rows' : C.Rows)
      → rule k id actor ref words now tiers rows ≡ ok rows'
      → Ruled k id rows rows'
  unfolding rule confirm_contribution fail_contribution refund_contribution confirmed_row failed_row
      refunded_row
  rule-Ruled confirm id actor ref words now tiers rows rows' h =
      elim (Option-cases (C.find id rows)) [
        | inl missing ↦ absurd (ground arith)
        | inr (c, f) ↦
            let months = tier_months (tier_of C T tiers c.tier_id) in
            record {
              gift = c;
              edit = confirmed_row actor ref (some words) now months;
              found = f;
              was = ground arith;
              becomes = λ d. refl;
              same = λ d. (refl, refl, refl, refl, refl, refl, refl, refl);
              records = confirmed_row-IsRecorded actor ref (some words) now months;
              after = ground arith;
            }
      ]
  rule-Ruled fail id actor ref words now tiers rows rows' h = elim (Option-cases (C.find id rows)) [
    | inl missing ↦ absurd (ground arith)
    | inr (c, f) ↦ record {
      gift = c;
      edit = failed_row actor (some words);
      found = f;
      was = ground arith;
      becomes = λ d. refl;
      same = λ d. (refl, refl, refl, refl, refl, refl, refl, refl);
      records = failed_row-IsRecorded actor (some words);
      after = ground arith;
    }
  ]
  rule-Ruled refund id actor ref words now tiers rows rows' h =
      elim (Option-cases (C.find id rows)) [
        | inl missing ↦ absurd (ground arith)
        | inr (c, f) ↦ record {
          gift = c;
          edit = refunded_row actor words now;
          found = f;
          was = ground arith;
          becomes = λ d. refl;
          same = λ d. (refl, refl, refl, refl, refl, refl, refl, refl);
          records = refunded_row-IsRecorded actor words now;
          after = ground arith;
        }
      ]
