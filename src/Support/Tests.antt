-- ===== src/Support/Tests.antt =====
-- One gift and one membership, from the pledge to the refund.
use article.Prelude.{
  ◌≡◌, refl, none, some, [], ◌∷◌, ok, ℕ, List, arith, codes, ◌≢◌, subst, Option, ◌++◌,
  if◌then◌else◌, ◌↔◌, false, true, is_empty, ◌==◌, trim, ◌+◌, ◌⊎◌, is_identifier, to_lower,
}
use article.Store.{Table}
use article.Store.Memory.{memory, put, update, first_from}
use article.Support.Contributions.{
  pending, confirmed, Tier, membership, Contribution, TierInput, PledgeInput, confirmed_row,
  new_contribution, edited_tier, npr, fresh_tier, clean,
}
use article.Support.Payments.{
  confirmed_totals, update_tier, pledge, create_tier, confirm_contribution,
}
use article.Support.Records.{
  confirm, fail, refund, rule, outcome, SameGift, required, IsRecorded, new-IsRecorded,
}
use article.Support.Calendar.{Date, membership_period_end, membership_period_end_lem, days_in_month}
use article.Support.Money.{
  contribution_reference, parse_amount_to_paisa, is_acceptable_amount, digits_value,
}
use article.Support.Rulings.{
  AllRecorded, rule-IsRecorded, pledge_charges, rule-ok_iff, rule-SameGift, Charged,
}
use article.Support.Memberships.{IsOffer, AllOffers}
use article.Support.Amounts.{parse_amount_decimal}
use article.Support.Totals.{rule-confirmed_totals}

abbrev C : Table Contribution
C = memory Contribution

abbrev T : Table Tier
T = memory Tier

abbrev supporter : Tier
supporter = record {
  key = codes "supporter";
  name = codes "Supporter";
  description = none;
  amount_paisa = 50000;
  currency = npr;
  interval_months = 1;
  is_active = true;
  sort = 0;
}

abbrev tiers : List (Option Tier)
tiers = some supporter ∷ []

abbrev today : Date
today = record { year = 2024; month = 0; day = 31; time = 0 }

abbrev form : PledgeInput
form = record {
  amount_paisa = 1;
  kind = membership;
  tier_id = some 0;
  user_id = none;
  donor_name = some (codes " Maya ");
  donor_email = none;
  anonymous = true;
  message = none;
}

abbrev bytes : List ℕ
bytes = 0 ∷ 1 ∷ 2 ∷ 3 ∷ 4 ∷ 5 ∷ 6 ∷ 24 ∷ []

abbrev pledged : Contribution
pledged = new_contribution form (some supporter) bytes

-- The reference of the pledge, and when a month that starts on the last of January ends.
reference_lem : contribution_reference bytes ≡ codes "SUP-ACDE-FGHA"
unfolding contribution_reference
reference_lem = refl

leap_february : membership_period_end today 1 ≡ record today { month = 1; day = 29 }
unfolding membership_period_end days_in_month
leap_february = refl

pledges : pledge C T form 0 bytes tiers [] ≡ ok (some pledged ∷ [])
unfolding pledge is_acceptable_amount put
pledges = refl

pledge_charges_example :
    ((c : Contribution) × (C.find 0 (some pledged ∷ []) ≡ some c)
      × (c.status ≡ pending)
      × (is_acceptable_amount c.amount_paisa ≡ true)
      × (c.donor_name ≡ (if form.anonymous then none else clean form.donor_name))
      × Charged C T form tiers c)
    × ((i : ℕ) → (0 == i) ≡ false → C.find i (some pledged ∷ []) ≡ C.find i [])
pledge_charges_example = pledge_charges C T form 0 bytes tiers [] (some pledged ∷ []) pledges

abbrev paid : Contribution
paid = confirmed_row 9 (some (codes "REF")) (some (codes "bank")) today 1 pledged

confirms :
    rule C T confirm 0 9 (some (codes "REF")) (codes "bank") today tiers (some pledged ∷ [])
    ≡ ok (some paid ∷ [])
unfolding rule confirm_contribution new_contribution update
confirms = refl

the_pledge : (i : ℕ) (c : Contribution) → C.find i (some pledged ∷ []) ≡ some c → pledged ≡ c
the_pledge i c f = ground arith

all_pledged : AllRecorded C T (some pledged ∷ [])
all_pledged i c f = subst IsRecorded (the_pledge i c f) (new-IsRecorded form (some supporter) bytes)

rule-IsRecorded_example : IsRecorded paid
rule-IsRecorded_example =
    rule-IsRecorded C T confirm 0 9 (some (codes "REF")) (codes "bank") today tiers
      (some pledged ∷ []) (some paid ∷ []) all_pledged confirms 0 paid refl

rule-SameGift_example :
    (d : Contribution) × (C.find 0 (some paid ∷ []) ≡ some d)
    × SameGift pledged d
    × (((0 == 0) ≡ true × (pledged.status ≡ pending) × (d.status ≡ confirmed))
        ⊎ ((0 == 0) ≡ false × (d.status ≡ pledged.status)))
rule-SameGift_example =
    rule-SameGift C T confirm 0 9 (some (codes "REF")) (codes "bank") today tiers
      (some pledged ∷ []) (some paid ∷ []) 0 pledged confirms refl

distinct : outcome confirm ≢ required fail
distinct e = ground arith

rule-ok_iff_example :
    ((rows' : C.Rows) × (rule C T refund 0 9 none (codes "asked") today tiers (some paid ∷ [])
        ≡ ok rows'))
    ↔ ((c : Contribution) × (C.find 0 (some paid ∷ []) ≡ some c)
        × (c.status ≡ confirmed)
        × (refund ≡ refund → is_empty (trim (codes "asked")) ≡ false))
rule-ok_iff_example = rule-ok_iff C T refund 0 9 none (codes "asked") today tiers (some paid ∷ [])

rule-confirmed_totals_example :
    (confirmed_totals C T (some paid ∷ [])).1 + 0
    ≡ (confirmed_totals C T (some pledged ∷ [])).1 + 50000
unfolding new_contribution
rule-confirmed_totals_example =
    rule-confirmed_totals C T confirm 0 9 (some (codes "REF")) (codes "bank") today tiers
      (some pledged ∷ []) (some paid ∷ []) pledged confirms refl

the_tier : (i : ℕ) (t : Tier) → T.find i tiers ≡ some t → supporter ≡ t
the_tier i t f = ground arith

supporter-IsOffer : IsOffer supporter
unfolding is_acceptable_amount
supporter-IsOffer = record { named = refl; priced = refl; timed = refl }

offers : AllOffers C T tiers
offers i t f = subst IsOffer (the_tier i t f) supporter-IsOffer

abbrev patron : TierInput
patron = record {
  key = codes "Patron";
  name = codes "Patron";
  description = none;
  amount_paisa = 100000;
  interval_months = 12;
  is_active = true;
  sort = 1;
}

creates : create_tier C T patron 1 tiers ≡ ok (some supporter ∷ some (fresh_tier patron) ∷ [])
unfolding create_tier is_identifier trim to_lower is_acceptable_amount first_from put
creates = refl

updates : update_tier C T 0 patron tiers ≡ ok (some (edited_tier patron supporter) ∷ [])
unfolding update_tier trim is_acceptable_amount update
updates = refl

parse_amount_decimal_example :
    parse_amount_to_paisa (b'1' ∷ (codes "500" ++ b'.' ∷ b'0' ∷ b'5' ∷ [])) ≡ some 150005
unfolding digits_value
parse_amount_decimal_example = parse_amount_decimal b'1' (codes "500") b'0' b'5' refl refl refl refl

membership_period_end_lem_example :
    membership_period_end today 13 ≡ record { year = 2025; month = 1; day = 28; time = 0 }
unfolding days_in_month
membership_period_end_lem_example = membership_period_end_lem today 13 (ground arith)
