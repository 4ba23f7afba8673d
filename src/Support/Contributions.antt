-- ===== src/Support/Contributions.antt =====
-- src/lib/contributions.ts: the rows of contributions and tiers, and how they change. The column that
-- names the provider, which is always the same, is left out.
use article.Prelude.{
  ℕ, Bool, true, false, not, ◌&&◌, ◌||◌, Option, none, some, List, ◌==◌, if◌then◌else◌, ltb, Text,
  trim, trimmed_or_null, to_lower, map, is_some, Result, ok, err,
}
use article.Support.Calendar.{Date, membership_period_end}
use article.Support.Money.{contribution_reference}

pub data Kind : Type 0 where
  one_off membership : Kind

pub data Status : Type 0 where
  pending confirmed failed refunded : Status

abbrev pub same_status : Status → Status → Bool
same_status pending pending = true
same_status confirmed confirmed = true
same_status failed failed = true
same_status refunded refunded = true
same_status _ _ = false

abbrev pub is_membership : Kind → Bool
is_membership one_off = false
is_membership membership = true

pub data Currency : Type 0 where
  npr usd : Currency

abbrev pub is_npr : Currency → Bool
is_npr npr = true
is_npr usd = false

pub record Tier : Type 0 where
  pub key : Text
  pub name : Text
  pub description : Option Text
  pub amount_paisa : ℕ
  pub currency : Currency
  pub interval_months : ℕ
  pub is_active : Bool
  pub sort : ℕ

pub record Contribution : Type 0 where
  pub reference : Text
  pub kind : Kind
  pub status : Status
  pub user_id : Option ℕ
  pub donor_name : Option Text
  pub donor_email : Option Text
  pub anonymous : Bool
  pub amount_paisa : ℕ
  pub currency : Currency
  pub tier_id : Option ℕ
  pub message : Option Text
  pub confirmed_by : Option ℕ
  pub confirmed_at : Option Date
  pub refunded_at : Option Date
  pub provider_ref : Option Text
  pub staff_note : Option Text
  pub period_start : Option Date
  pub period_end : Option Date

-- ContributionError, one constructor for each message.
pub data ContributionError : Type 0 where
  choose_membership not_available bad_amount gone not_pending not_confirmed no_reason :
      ContributionError
  already : Status → ContributionError
  bad_key no_name bad_interval key_taken : ContributionError
  -- What the database throws for an update of a row that is not there.
  no_record : ContributionError

pub record PledgeInput : Type 0 where
  pub amount_paisa : ℕ
  pub kind : Kind
  pub tier_id : Option ℕ
  pub user_id : Option ℕ
  pub donor_name : Option Text
  pub donor_email : Option Text
  pub anonymous : Bool
  pub message : Option Text

-- `value?.trim() || null`
abbrev pub clean : Option Text → Option Text
clean none = none
clean (some s) = trimmed_or_null s

pub record TierInput : Type 0 where
  pub key : Text
  pub name : Text
  pub description : Option Text
  pub amount_paisa : ℕ
  pub interval_months : ℕ
  pub is_active : Bool
  pub sort : ℕ

abbrev pub active_tier : Option Tier → Option Tier
active_tier none = none
active_tier (some t) = if t.is_active then some t else none

-- The amount and the currency asked for: the tier's, or the form's in rupees.
abbrev pub asked : PledgeInput → Option Tier → ℕ × Currency
asked input none = (input.amount_paisa, npr)
asked input (some t) = (t.amount_paisa, t.currency)

-- A membership keeps the tier that it was bought from; a gift has none.
unfoldable pub new_contribution : PledgeInput → Option Tier → List ℕ → Contribution
new_contribution input tier bytes = record {
  reference = contribution_reference bytes;
  kind = input.kind;
  status = pending;
  user_id = input.user_id;
  donor_name = if input.anonymous then none else clean input.donor_name;
  donor_email = clean input.donor_email;
  anonymous = input.anonymous;
  amount_paisa = (asked input tier).0;
  currency = (asked input tier).1;
  tier_id = if is_some tier then input.tier_id else none;
  message = clean input.message;
  confirmed_by = none;
  confirmed_at = none;
  refunded_at = none;
  provider_ref = none;
  staff_note = none;
  period_start = none;
  period_end = none;
}

abbrev pub tier_months : Option Tier → ℕ
tier_months none = 12
tier_months (some t) = t.interval_months

unfoldable pub confirmed_row :
    ℕ → Option Text → Option Text → Date → ℕ → Contribution → Contribution
confirmed_row actor provider_ref staff_note now months c = record c {
  status = confirmed;
  confirmed_by = some actor;
  confirmed_at = some now;
  provider_ref = clean provider_ref;
  staff_note = clean staff_note;
  period_start = if is_membership c.kind then some now else c.period_start;
  period_end =
      if is_membership c.kind then some (membership_period_end now months) else c.period_end;
}

unfoldable pub failed_row : ℕ → Option Text → Contribution → Contribution
failed_row actor staff_note c = record c {
  status = failed;
  confirmed_by = some actor;
  staff_note = clean staff_note;
}

unfoldable pub refunded_row : ℕ → Text → Date → Contribution → Contribution
refunded_row actor staff_note now c = record c {
  status = refunded;
  refunded_at = some now;
  confirmed_by = some actor;
  staff_note = some (trim staff_note);
}

abbrev pub counts : Contribution → Bool
counts c = same_status c.status confirmed && is_npr c.currency

abbrev pub is_named : Contribution → Bool
is_named c = same_status c.status confirmed && not c.anonymous && is_some c.donor_name

abbrev pub interval_ok : ℕ → Bool
interval_ok n = not (ltb n 1 || ltb 60 n)

abbrev pub no_clash : Option (ℕ × Tier) → Result ContributionError (Unit {0})
no_clash none = ok tt
no_clash (some clash) = err key_taken

abbrev pub edited_tier : TierInput → Tier → Tier
edited_tier input t = record t {
  name = trim input.name;
  description = clean input.description;
  amount_paisa = input.amount_paisa;
  interval_months = input.interval_months;
  is_active = input.is_active;
  sort = input.sort;
}

abbrev pub is_for : ℕ → Option ℕ → Bool
is_for id none = false
is_for id (some t) = t == id

abbrev pub bought_from : ℕ → Contribution → Bool
bought_from id c = is_for id c.tier_id

-- A tier's currency and its being active are the database's defaults.
abbrev pub fresh_tier : TierInput → Tier
fresh_tier input = record {
  key = map to_lower (trim input.key);
  name = trim input.name;
  description = clean input.description;
  amount_paisa = input.amount_paisa;
  currency = npr;
  interval_months = input.interval_months;
  is_active = true;
  sort = input.sort;
}
