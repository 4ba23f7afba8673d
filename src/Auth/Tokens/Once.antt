-- ===== src/Auth/Tokens/Once.antt =====
-- A mailed link works once, and until it expires.
use article.Prelude.{
  [], ◌∷◌, true, false, none, some, inl, inr, refl, ◌≡◌, Option-cases, arith, Bool-cases, ◌+◌, ◌==◌,
  text_eq_iff, ◌∙◌, ap,
}
use article.Store.{Table}
use article.Auth.Tokens.{
  VerificationToken, Text, delete_all, Bool, ℕ, consume_token, text_eq, List, create_token,
  TokenPurpose, scoped_identifier, ltb, new_token,
}

module _ (V : Table VerificationToken) (lower hash : Text → Text) where
  -- The unique index on the token.
  abbrev pub AreUniqueTokens : V.Rows → Type 0
  AreUniqueTokens t =
      (i j : ℕ) (r s : VerificationToken)
      → V.find i t ≡ some r
      → V.find j t ≡ some s
      → text_eq r.token s.token ≡ true
      → i ≡ j

  abbrev has_hash : Text → VerificationToken → Bool
  has_hash raw r = text_eq r.token (hash raw)

  gone :
      (t : V.Rows) (raw : Text) (i : ℕ) (r : VerificationToken)
      → AreUniqueTokens t
      → V.first (has_hash raw) t ≡ some (i, r)
      → V.first (has_hash raw) (V.delete i t) ≡ none
  gone t raw i r u e = elim (Option-cases (V.first (has_hash raw) (V.delete i t))) [
    | inl n ↦ n
    | inr ((j, s), f) ↦
        let (g, p) = V.first-some (has_hash raw) t i r e in
        let (h, q) = V.first-some (has_hash raw) (V.delete i t) j s f in
        let d = V.find-delete j i t in
        elim (Bool-cases (i == j)) [
          | inl y ↦ absurd (ground arith)
          | inr o ↦
              let same : text_eq r.token s.token ≡ true = ground (
                arith,
                text_eq_iff r.token (hash raw),
                text_eq_iff s.token (hash raw),
                text_eq_iff r.token s.token,
              ) in
              absurd (ground (arith, u i j r s g (ground arith) same))
        ]
  ]

  -- If no two rows have one token, a link that was tried, in vain or not, is refused when it is tried again,
  -- for whatever purpose, address and time.
  pub consume_token-again :
      (purpose again : TokenPurpose) (email other raw : Text) (now later : ℕ) (t : V.Rows)
      → AreUniqueTokens t
      → (consume_token V lower hash again other raw later
          (consume_token V lower hash purpose email raw now t).1).0
        ≡ false
  unfolding consume_token
  consume_token-again purpose again email other raw now later t u =
      elim (Option-cases (V.first (has_hash raw) t)) [
        | inl n ↦ rw (n, n) refl
        | inr ((i, r), e) ↦ rw (e, gone t raw i r u e) refl
      ]

  find-delete_all :
      (rows : List (ℕ × VerificationToken)) (t : V.Rows) (j : ℕ) (s : VerificationToken)
      → V.find j (delete_all V lower hash rows t) ≡ some s
      → V.find j t ≡ some s
  unfolding delete_all
  find-delete_all [] t j s f = f
  find-delete_all ((i, r) ∷ rows) t j s f =
      let g = find-delete_all rows (V.delete i t) j s f in ground (arith, V.find-delete j i t)

  scoped_same :
      (purpose : TokenPurpose) (typed email : Text)
      → lower typed ≡ lower email
      → scoped_identifier lower purpose typed ≡ scoped_identifier lower purpose email
  unfolding scoped_identifier
  scoped_same purpose typed email e = rw e refl

  created-first :
      (row : VerificationToken) (raw : Text) (id : ℕ) (t : V.Rows)
      → row.token ≡ hash raw
      → ((j : ℕ) (s : VerificationToken) → V.find j t ≡ some s → has_hash raw s ≡ false)
      → (j : ℕ) × (V.first (has_hash raw) (V.put id row t) ≡ some (j, row))
  created-first row raw id t k fresh =
      let own : V.find id (V.put id row t) ≡ some row = ground (arith, V.find-put id id row t) in
      elim (Option-cases (V.first (has_hash raw) (V.put id row t))) [
        | inl n ↦
            let q = V.first-none (has_hash raw) (V.put id row t) id row n own in
            absurd (ground (arith, text_eq_iff row.token (hash raw)))
        | inr ((j, s), e) ↦
            let (g, p) = V.first-some (has_hash raw) (V.put id row t) j s e in
            let d = V.find-put j id row t in
            elim (Bool-cases (id == j)) [
              | inl y ↦ let m : s ≡ row = ground arith in (j, e ∙ ap (λ r. some (j, r)) m)
              | inr o ↦ let z = fresh j s (ground arith) in absurd (ground arith)
            ]
      ]

  -- A new link whose token no row has is accepted for its purpose and address, in any case of letters that is
  -- lowered to the same, until its time is over, and not from then on.
  pub create_token-consume_token :
      (purpose : TokenPurpose) (email typed raw : Text) (ttl_ms now later id : ℕ) (t : V.Rows)
      → ((j : ℕ) (s : VerificationToken) → V.find j t ≡ some s → has_hash raw s ≡ false)
      → lower typed ≡ lower email
      → (consume_token V lower hash purpose typed raw later
          (create_token V lower hash purpose email ttl_ms raw now id t)).0
        ≡ ltb later (now + ttl_ms)
  unfolding consume_token create_token
  create_token-consume_token purpose email typed raw ttl_ms now later id t fresh e =
      let identifier = scoped_identifier lower purpose email in
      let old = V.select (λ _ r. text_eq r.identifier identifier) t in
      let row = new_token V lower hash identifier raw (now + ttl_ms) in
      let (j, f) =
        created-first row raw id (delete_all V lower hash old t) refl
          (λ k s g. fresh k s (find-delete_all old t k s g)) in
      let same : text_eq identifier (scoped_identifier lower purpose typed) ≡ true = ground (
        arith,
        text_eq_iff identifier (scoped_identifier lower purpose typed),
        scoped_same purpose typed email e,
      ) in
      rw (f, same) refl
