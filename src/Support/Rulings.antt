-- ===== src/Support/Rulings.antt =====
-- What the rulings of src/lib/contributions.ts keep true of the table of contributions.
use article.Prelude.{
  ℕ, ◌≡◌, ◌≢◌, ◌↔◌, refl, true, false, Option, none, some, List, arith, Text, ok, Option-cases,
  Bool-cases, Result-cases, inl, inr, trim, is_empty, ◌⊎◌, ◌==◌, if◌then◌else◌,
}
use article.Store.{Table}
use article.Store.Rows.{found-update, update-found}
use article.Support.Calendar.{Date}
use article.Support.Contributions.{
  pending, Kind, one_off, membership, Contribution, PledgeInput, Tier, new_contribution, asked, npr,
  clean,
}
use article.Support.Payments.{
  confirm_contribution, fail_contribution, refund_contribution, pledge, bought,
}
use article.Support.Money.{is_acceptable_amount}
use article.Support.Records.{
  Ruling, confirm, fail, refund, required, outcome, SameGift, rule, rule-Ruled, IsRecorded,
}

pub SameGift-refl : (c : Contribution) → SameGift c c
SameGift-refl c = (refl, refl, refl, refl, refl, refl, refl, refl)

module _ (C : Table Contribution) (T : Table Tier) where
  abbrev pub AllRecorded : C.Rows → Type 0
  AllRecorded rows = (i : ℕ) (c : Contribution) → C.find i rows ≡ some c → IsRecorded c

  -- If the record of every contribution agrees with its status, it still does after any ruling that
  -- is accepted.
  pub rule-IsRecorded :
      (k : Ruling) (id actor : ℕ) (ref : Option Text) (words : Text) (now : Date) (tiers : T.Rows)
      (rows rows' : C.Rows)
      → AllRecorded rows
      → rule C T k id actor ref words now tiers rows ≡ ok rows'
      → AllRecorded rows'
  rule-IsRecorded k id actor ref words now tiers rows rows' v h i d f =
      let m = rule-Ruled C T k id actor ref words now tiers rows rows' h in
      let (c, p, q) = found-update C i id m.edit rows d (rw m.after at f) in
      elim (Bool-cases (id == i)) [
        | inl same ↦
            let e : d ≡ m.edit c = ground (arith, q) in
            let t : c.status ≡ required k = ground (arith, m.found, m.was, p) in
            rw e (m.records c t (v i c p))
        | inr other ↦ let e : d ≡ c = ground (arith, q) in rw e (v i c p)
      ]

  -- After a ruling that is accepted every contribution is still there, for the same amount and with the
  -- same reference, giver and name; the one ruled on has gone from the one status that the ruling is for
  -- to its outcome, and all others have the status they had.
  pub rule-SameGift :
      (k : Ruling) (id actor : ℕ) (ref : Option Text) (words : Text) (now : Date) (tiers : T.Rows)
      (rows rows' : C.Rows) (i : ℕ) (c : Contribution)
      → rule C T k id actor ref words now tiers rows ≡ ok rows'
      → C.find i rows ≡ some c
      → (d : Contribution) × (C.find i rows' ≡ some d)
        × SameGift c d
        × (((id == i) ≡ true × (c.status ≡ required k) × (d.status ≡ outcome k))
            ⊎ ((id == i) ≡ false × (d.status ≡ c.status)))
  rule-SameGift k id actor ref words now tiers rows rows' i c h f =
      let m = rule-Ruled C T k id actor ref words now tiers rows rows' h in
      let g = update-found C i id m.edit rows c f in
      elim (Bool-cases (id == i)) [
        | inl same ↦ (
          m.edit c,
          rw m.after (rw same at g),
          m.same c,
          inl (same, ground (arith, m.found, m.was, f), m.becomes c),
        )
        | inr other ↦ (c, rw m.after (rw other at g), SameGift-refl c, inr (other, refl))
      ]

  -- Once a ruling on a contribution is accepted, no ruling on it that is for another status than
  -- its outcome is accepted next.
  pub rule_again :
      (k j : Ruling) (id actor actor' : ℕ) (ref ref' : Option Text) (words words' : Text)
      (now now' : Date) (tiers : T.Rows) (rows rows' : C.Rows)
      → rule C T k id actor ref words now tiers rows ≡ ok rows'
      → outcome k ≢ required j
      → (rows'' : C.Rows) → rule C T j id actor' ref' words' now' tiers rows' ≢ ok rows''
  rule_again k j id actor actor' ref ref' words words' now now' tiers rows rows' h n rows'' h' =
      let m = rule-Ruled C T k id actor ref words now tiers rows rows' h in
      let m' = rule-Ruled C T j id actor' ref' words' now' tiers rows' rows'' h' in
      let (c, p, q) = found-update C id id m.edit rows m'.gift (rw m.after at m'.found) in
      let e : m'.gift ≡ m.edit c = ground (arith, q) in n (ground (arith, m.becomes c, m'.was, e))

  refund-reason :
      (k : Ruling) (id actor : ℕ) (ref : Option Text) (words : Text) (now : Date) (tiers : T.Rows)
      (rows rows' : C.Rows)
      → rule C T k id actor ref words now tiers rows ≡ ok rows'
      → k ≡ refund
      → is_empty (trim words) ≡ false
  unfolding rule refund_contribution
  refund-reason confirm id actor ref words now tiers rows rows' h e = absurd (ground arith)
  refund-reason fail id actor ref words now tiers rows rows' h e = absurd (ground arith)
  refund-reason refund id actor ref words now tiers rows rows' h e =
      elim (Option-cases (C.find id rows)) [
        | inl missing ↦ absurd (ground arith)
        | inr (c, f) ↦ ground arith
      ]

  accepted :
      (k : Ruling) (id actor : ℕ) (ref : Option Text) (words : Text) (now : Date) (tiers : T.Rows)
      (rows : C.Rows) (c : Contribution)
      → C.find id rows ≡ some c
      → c.status ≡ required k
      → (k ≡ refund → is_empty (trim words) ≡ false)
      → (rows' : C.Rows) × (rule C T k id actor ref words now tiers rows ≡ ok rows')
  unfolding rule confirm_contribution fail_contribution refund_contribution
  accepted confirm id actor ref words now tiers rows c f w n =
      elim (Result-cases (rule C T confirm id actor ref words now tiers rows)) [
        | inl fine ↦ fine
        | inr (e, b) ↦ absurd (ground (arith, n))
      ]
  accepted fail id actor ref words now tiers rows c f w n =
      elim (Result-cases (rule C T fail id actor ref words now tiers rows)) [
        | inl fine ↦ fine
        | inr (e, b) ↦ absurd (ground (arith, n))
      ]
  accepted refund id actor ref words now tiers rows c f w n =
      elim (Result-cases (rule C T refund id actor ref words now tiers rows)) [
        | inl fine ↦ fine
        | inr (e, b) ↦ absurd (ground (arith, n))
      ]

  -- A ruling is accepted exactly when the contribution is there in the status that the ruling is for and,
  -- for a refund, the reason is not blank.
  pub rule-ok_iff :
      (k : Ruling) (id actor : ℕ) (ref : Option Text) (words : Text) (now : Date) (tiers : T.Rows)
      (rows : C.Rows)
      → ((rows' : C.Rows) × (rule C T k id actor ref words now tiers rows ≡ ok rows')) ↔ (
          (c : Contribution) × (C.find id rows ≡ some c)
          × (c.status ≡ required k)
          × (k ≡ refund → is_empty (trim words) ≡ false))
  rule-ok_iff k id actor ref words now tiers rows = (
    λ (rows', h).
        let m = rule-Ruled C T k id actor ref words now tiers rows rows' h in
        (m.gift, m.found, m.was, λ e. refund-reason k id actor ref words now tiers rows rows' h e),
    λ (c, f, w, n). accepted k id actor ref words now tiers rows c f w n,
  )

  bought_lem :
      (kind : Kind) (id : Option ℕ) (tiers : T.Rows) (o : Option Tier)
      → bought C T kind id tiers ≡ ok o
      → ((kind ≡ one_off) × (o ≡ none))
        ⊎ ((kind ≡ membership)
            × (t : ℕ) × (tier : Tier) × (id ≡ some t)
            × (T.find t tiers ≡ some tier)
            × (tier.is_active ≡ true)
            × (o ≡ some tier))
  bought_lem one_off id tiers o h = inl (refl, ground arith)
  bought_lem membership none tiers o h = absurd (ground arith)
  bought_lem membership (some t) tiers o h = elim (Option-cases (T.find t tiers)) [
    | inl missing ↦ absurd (ground arith)
    | inr (tier, f) ↦ elim (Bool-cases tier.is_active) [
      | inl on ↦ inr (refl, t, tier, refl, f, on, ground arith)
      | inr off ↦ absurd (ground arith)
    ]
  ]

  -- What a pledge costs: a gift what the form says, in rupees, and a membership the price of the active
  -- tier that the form names.
  abbrev pub Charged : PledgeInput → T.Rows → Contribution → Type 0
  Charged input tiers c =
      ((input.kind ≡ one_off)
        × (c.amount_paisa ≡ input.amount_paisa)
        × (c.currency ≡ npr)
        × (c.tier_id ≡ none))
      ⊎ ((input.kind ≡ membership)
          × (t : ℕ) × (tier : Tier) × (c.tier_id ≡ some t)
          × (input.tier_id ≡ some t)
          × (T.find t tiers ≡ some tier)
          × (tier.is_active ≡ true)
          × (c.amount_paisa ≡ tier.amount_paisa)
          × (c.currency ≡ tier.currency))

  charged :
      (input : PledgeInput) (tiers : T.Rows) (o : Option Tier) (bytes : List ℕ)
      → bought C T input.kind input.tier_id tiers ≡ ok o
      → Charged input tiers (new_contribution input o bytes)
  unfolding new_contribution
  charged input tiers o bytes b = elim (bought_lem input.kind input.tier_id tiers o b) [
    | inl (gift, e) ↦ inl (gift, rw e refl, rw e refl, rw e refl)
    | inr (member, t, tier, i, f, on, e) ↦
        inr (member, t, tier, rw e i, i, f, on, rw e refl, rw e refl)
  ]

  -- A pledge that is taken adds one contribution that is pending, for an amount within the bounds: the
  -- price of the active tier that the form names if it is a membership, and what the form says, in rupees,
  -- if it is a gift. An anonymous one stores no name. No other contribution changes.
  pub pledge_charges :
      (input : PledgeInput) (id : ℕ) (bytes : List ℕ) (tiers : T.Rows) (rows rows' : C.Rows)
      → pledge C T input id bytes tiers rows ≡ ok rows'
      → ((c : Contribution) × (C.find id rows' ≡ some c)
          × (c.status ≡ pending)
          × (is_acceptable_amount c.amount_paisa ≡ true)
          × (c.donor_name ≡ (if input.anonymous then none else clean input.donor_name))
          × Charged input tiers c)
        × ((i : ℕ) → (id == i) ≡ false → C.find i rows' ≡ C.find i rows)
  unfolding pledge new_contribution
  pledge_charges input id bytes tiers rows rows' h =
      elim (Result-cases (bought C T input.kind input.tier_id tiers)) [
        | inl (o, b) ↦
            let new = new_contribution input o bytes in
            let fine : is_acceptable_amount (asked input o).0 ≡ true = ground arith in
            let after : rows' ≡ C.put id new rows = ground arith in
            (
              (
                new,
                rw after (ground (arith, C.find-put id id new rows)),
                refl,
                fine,
                refl,
                charged input tiers o bytes b,
              ),
              (λ i other. rw (after, C.find-put, other)),
            )
        | inr (e, b) ↦ absurd (ground arith)
      ]
