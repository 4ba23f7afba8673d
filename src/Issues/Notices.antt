-- ===== src/Issues/Notices.antt =====
-- What creating notices adds to the table of notifications.
use article.Prelude.{
  ℕ, zero, suc, ◌≤◌, ◌≡◌, inl, inr, refl, true, false, ◌||◌, List, [], ◌∷◌, arith, length, take,
  map, All, any, Bool-cases, ltb, ◌==◌, subst, ap,
}
use article.Auth.Account.{User}
use article.Issues.Alerts.{Notice, NoticeTable, same_notice, create_many, district_notice}

pub any_self :
    (ns ms : List Notice)
    → ((n : Notice) → any (λ m. same_notice m n) ns ≡ true → any (λ m. same_notice m n) ms ≡ true)
    → All (λ n. any (λ m. same_notice m n) ms ≡ true) ns
any_self [] ms h = tt
any_self (n ∷ ns) ms h = (h n (same_self n ns), any_self ns ms (λ k e. h k (later k n ns e)))
  where
    same_self : (n : Notice) (ns : List Notice) → any (λ m. same_notice m n) (n ∷ ns) ≡ true
    same_self n ns = ground arith

    later :
        (k n : Notice) (ns : List Notice)
        → any (λ m. same_notice m k) ns ≡ true
        → any (λ m. same_notice m k) (n ∷ ns) ≡ true
    later k n ns e = ground arith

-- The notices of a pass over some members, and which member one of them is for.
abbrev pub notices_for : ℕ → List (ℕ × User) → List Notice
notices_for id rs = map (λ (e : ℕ × User). district_notice id e.0) rs

pub any-notices_for :
    (P : ℕ × User → Type 0) (id : ℕ) (n : Notice) (rs : List (ℕ × User))
    → any (λ m. same_notice m n) (notices_for id rs) ≡ true
    → All P rs
    → (u : User) × P (n.user_id, u) × (n.target_id ≡ id)
any-notices_for P id n [] h a = cc
any-notices_for P id n ((i, u) ∷ rs) h (p, a) =
    elim (Bool-cases (same_notice (district_notice id i) n)) [
      | inl same ↦
          let e : i ≡ n.user_id = ground arith in (u, subst (λ x. P (x, u)) e p, ground arith)
      | inr other ↦ any-notices_for P id n rs (ground arith) a
    ]

pub notices_for-any :
    (id i : ℕ) (rs : List (ℕ × User))
    → any (λ (e : ℕ × User). e.0 == i) rs ≡ true
    → any (λ m. same_notice m (district_notice id i)) (notices_for id rs) ≡ true
notices_for-any id i [] h = cc
notices_for-any id i ((j, u) ∷ rs) h = ground (arith, notices_for-any id i rs)

pub take_all {ℓ} :
    {A : Type ℓ} (n : ℕ) (xs : List A) → length (take (suc n) xs) ≤ n → take (suc n) xs ≡ xs
take_all n [] h = refl
take_all zero (x ∷ xs) h = absurd (omega arith)
take_all (suc n) (x ∷ xs) h = ap (λ l. x ∷ l) (take_all n xs (omega arith))

pub length-take-le {ℓ} : {A : Type ℓ} (n : ℕ) (xs : List A) → length (take n xs) ≤ n
length-take-le zero xs = omega arith
length-take-le (suc n) [] = omega arith
length-take-le (suc n) (x ∷ xs) = omega (arith, length-take-le n xs)

pub ltb→le : (a b : ℕ) → ltb a b ≡ false → b ≤ a
ltb→le a b h = ground arith

pub length-notices_for : (id : ℕ) (rs : List (ℕ × User)) → length (notices_for id rs) ≡ length rs
length-notices_for id [] = refl
length-notices_for id (e ∷ rs) = ap suc (length-notices_for id rs)

module _ (N : NoticeTable) where
  -- What a creation adds, and nothing else.
  pub has-create_many :
      (n : Notice) (ns : List Notice) (t : N.Rows)
      → N.has n (create_many N ns t).0 ≡ (any (λ m. same_notice m n) ns || N.has n t)
  unfolding create_many
  has-create_many n [] t = refl
  has-create_many n (m ∷ ns) t = ground (arith, has-create_many n ns (N.add m t), N.has-add n m t)

  pub created-le : (ns : List Notice) (t : N.Rows) → (create_many N ns t).1 ≤ length ns
  unfolding create_many
  created-le [] t = omega arith
  created-le (n ∷ ns) t = ground (arith, created-le ns (N.add n t))

  pub still :
      (n : Notice) (ns : List Notice) (t : N.Rows)
      → All (λ m. N.has m t ≡ true) ns
      → All (λ m. N.has m (N.add n t) ≡ true) ns
  still n [] t h = tt
  still n (m ∷ ns) t (p, h) = (ground (arith, N.has-add m n t), still n ns t h)

  pub has_each :
      (ns ms : List Notice) (t : N.Rows)
      → All (λ n. any (λ m. same_notice m n) ms ≡ true) ns
      → All (λ n. N.has n (create_many N ms t).0 ≡ true) ns
  has_each [] ms t h = tt
  has_each (n ∷ ns) ms t (p, h) = (ground (arith, has-create_many n ms t), has_each ns ms t h)

  -- Nothing is created where everything is there.
  pub created-zero :
      (ns : List Notice) (t : N.Rows) → All (λ n. N.has n t ≡ true) ns → (create_many N ns t).1 ≡ 0
  unfolding create_many
  created-zero [] t h = refl
  created-zero (n ∷ ns) t (p, h) = ground (arith, created-zero ns (N.add n t) (still n ns t h))
