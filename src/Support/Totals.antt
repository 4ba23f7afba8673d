-- ===== src/Support/Totals.antt =====
-- What the public total of src/lib/contributions.ts counts.
use article.Prelude.{ℕ, ◌+◌, ◌≡◌, Option, some, List, [], ◌∷◌, arith, Text, ok, map, if◌then◌else◌}
use article.Store.{Table, weigh}
use article.Support.Calendar.{Date}
use article.Support.Contributions.{Contribution, Tier, counts, is_npr}
use article.Support.Payments.{confirmed_totals}
use article.Support.Money.{sum_paisa, sum_from}
use article.Support.Records.{Ruling, confirm, fail, refund, required, outcome, rule, rule-Ruled}

sum_from-weigh :
    (n : ℕ) (rows : List (ℕ × Contribution))
    → sum_from n (map (λ (e : ℕ × Contribution). e.1.amount_paisa) rows)
      ≡ n + weigh (λ c. c.amount_paisa) rows
unfolding sum_from
sum_from-weigh n [] = omega arith
sum_from-weigh n ((i, c) ∷ rows) = ground (arith, sum_from-weigh (n + c.amount_paisa) rows)

-- What a contribution adds to the total.
abbrev pub share : Contribution → ℕ
share c = if counts c then c.amount_paisa else 0

-- What a ruling on an amount adds to the total, and what it takes off.
abbrev pub gained : Ruling → ℕ → ℕ
gained confirm n = n
gained fail n = 0
gained refund n = 0

abbrev pub lost : Ruling → ℕ → ℕ
lost confirm n = 0
lost fail n = 0
lost refund n = n

settle :
    (k : Ruling) (c d : Contribution) (before after : ℕ)
    → d.amount_paisa ≡ c.amount_paisa
    → d.currency ≡ c.currency
    → c.status ≡ required k
    → d.status ≡ outcome k
    → after + share c ≡ before + share d
    → let amount = if is_npr c.currency then c.amount_paisa else 0 in
      after + lost k amount ≡ before + gained k amount
settle confirm c d before after a u w b t = ground arith
settle fail c d before after a u w b t = ground arith
settle refund c d before after a u w b t = ground arith

module _ (C : Table Contribution) (T : Table Tier) where
  total_weigh :
      (rows : C.Rows)
      → (confirmed_totals C T rows).1
        ≡ weigh (λ c. c.amount_paisa) (C.select (λ _ c. counts c) rows)
  unfolding confirmed_totals sum_paisa
  total_weigh rows = ground (arith, sum_from-weigh 0 (C.select (λ _ c. counts c) rows))

  total-update :
      (id : ℕ) (f : Contribution → Contribution) (rows : C.Rows) (c : Contribution)
      → C.find id rows ≡ some c
      → (confirmed_totals C T (C.update id f rows)).1 + share c
        ≡ (confirmed_totals C T rows).1 + share (f c)
  total-update id f rows c h =
      rw (total_weigh (C.update id f rows), total_weigh rows)
        (C.weigh-update (λ c. c.amount_paisa) (λ _ c. counts c) id f rows c h)

  -- A confirmation raises the public total by the amount of the contribution if that is in rupees,
  -- a refund lowers it by as much, and a failed pledge and a contribution in another currency leave
  -- it as it is.
  pub rule-confirmed_totals :
      (k : Ruling) (id actor : ℕ) (ref : Option Text) (words : Text) (now : Date) (tiers : T.Rows)
      (rows rows' : C.Rows) (c : Contribution)
      → rule C T k id actor ref words now tiers rows ≡ ok rows'
      → C.find id rows ≡ some c
      → let before = (confirmed_totals C T rows).1 in
        let after = (confirmed_totals C T rows').1 in
        let amount = if is_npr c.currency then c.amount_paisa else 0 in
        after + lost k amount ≡ before + gained k amount
  rule-confirmed_totals k id actor ref words now tiers rows rows' c h f =
      let m = rule-Ruled C T k id actor ref words now tiers rows rows' h in
      let t = total-update id m.edit rows c f in
      let w : c.status ≡ required k = ground (arith, m.found, m.was, f) in
      let b = m.becomes c in
      let (_, _, a, u, _, _, _, _) = m.same c in
      let e : rows' ≡ C.update id m.edit rows = m.after in
      rw e (settle k c (m.edit c) _ _ a u w b t)
