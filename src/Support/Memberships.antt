-- ===== src/Support/Memberships.antt =====
-- The membership tiers of src/lib/contributions.ts.
use article.Prelude.{
  ℕ, ◌≡◌, refl, true, false, some, arith, ok, Option-cases, Bool-cases, inl, inr, ltb, ◌==◌,
  is_empty, map, to_lower, trim, text_eq,
}
use article.Store.{Table}
use article.Store.Rows.{found-update, found-put, update-found}
use article.Support.Money.{is_acceptable_amount}
use article.Support.Contributions.{
  Contribution, Tier, TierInput, interval_ok, bought_from, edited_tier, fresh_tier, fresh_tier,
}
use article.Support.Payments.{create_tier, update_tier, retire_tier}

-- A tier that can be offered: it has a name, a price within the bounds and a period of one month to five
-- years.
pub record IsOffer (t : Tier) : Type 0 where
  pub named : is_empty t.name ≡ false
  pub priced : is_acceptable_amount t.amount_paisa ≡ true
  pub timed : interval_ok t.interval_months ≡ true

module _ (C : Table Contribution) (T : Table Tier) where
  abbrev pub AllOffers : T.Rows → Type 0
  AllOffers tiers = (i : ℕ) (t : Tier) → T.find i tiers ≡ some t → IsOffer t

  -- If every tier has a name, a price within the bounds and a period of one to sixty months, every
  -- tier still has them after one is created from any form.
  pub create_tier-IsOffer :
      (input : TierInput) (id : ℕ) (tiers tiers' : T.Rows)
      → AllOffers tiers
      → create_tier C T input id tiers ≡ ok tiers'
      → AllOffers tiers'
  unfolding create_tier
  create_tier-IsOffer input id tiers tiers' v h i t f =
      let key = map to_lower (trim input.key) in
      elim (Option-cases (T.first (λ t. text_eq t.key key) tiers)) [
        | inr (clash, b) ↦ absurd (ground arith)
        | inl free ↦
            let after : tiers' ≡ T.put id (fresh_tier input) tiers = ground arith in
            elim (found-put T i id (fresh_tier input) tiers t (rw after at f)) [
              | inl (_, e) ↦
                  rw e
                    (record { named = ground arith; priced = ground arith; timed = ground arith })
              | inr old ↦ v i t old
            ]
      ]

  -- If every tier has a name, a price within the bounds and a period of one to sixty months, every
  -- tier still has them after one is edited with any form.
  pub update_tier-IsOffer :
      (id : ℕ) (input : TierInput) (tiers tiers' : T.Rows)
      → AllOffers tiers
      → update_tier C T id input tiers ≡ ok tiers'
      → AllOffers tiers'
  unfolding update_tier
  update_tier-IsOffer id input tiers tiers' v h i t f = elim (Option-cases (T.find id tiers)) [
    | inl missing ↦ absurd (ground arith)
    | inr (_, there) ↦
        let after : tiers' ≡ T.update id (edited_tier input) tiers = ground arith in
        let (s, p, q) = found-update T i id (edited_tier input) tiers t (rw after at f) in
        elim (Bool-cases (id == i)) [
          | inl same ↦
              let e : t ≡ edited_tier input s = ground (arith, q) in
              rw e (record { named = ground arith; priced = ground arith; timed = ground arith })
          | inr other ↦ let e : t ≡ s = ground (arith, q) in rw e (v i s p)
        ]
  ]

  -- A tier that some contribution was bought from is still there after it is retired, at the same
  -- price and in the same currency, and is not active.
  pub retire_tier-kept :
      (id : ℕ) (rows : C.Rows) (tiers : T.Rows) (t : Tier) (i : ℕ) (c : Contribution)
      → T.find id tiers ≡ some t
      → C.find i rows ≡ some c
      → c.tier_id ≡ some id
      → (s : Tier) × (T.find id (retire_tier C T id rows tiers) ≡ some s)
        × (s.is_active ≡ false)
        × (s.amount_paisa ≡ t.amount_paisa)
        × (s.currency ≡ t.currency)
  unfolding retire_tier
  retire_tier-kept id rows tiers t i c f g b =
      let sold : ltb 0 (C.count (λ _ c. bought_from id c) rows) ≡ true =
        ground (arith, C.count-found (λ _ c. bought_from id c) rows i c g) in
      (
        record t { is_active = false },
        rw (f, sold)
            (ground (arith, update-found T id id (λ t. record t { is_active = false }) tiers t f)),
        refl,
        refl,
        refl,
      )
