-- ===== src/Store/Memory.antt =====
-- A table in memory: the row with id i stands at place i. It shows that what is assumed of a table
-- can hold, and tests run on it.
use mathlib.Core.Option
use article.Prelude.{
  ℕ, zero, suc, ◌+◌, ◌<◌, ◌≡◌, refl, inl, inr, Bool, true, false, Option, none, some, List, [], ◌∷◌,
  arith, ◌==◌, if◌then◌else◌, Bool-cases, All, any, subst, sym, ◌++◌,
}
use article.Store.{Table, weigh}

module _ {R : Type 0} where
  abbrev pub find : ℕ → List (Option R) → Option R
  find i [] = none
  find zero (o ∷ t) = o
  find (suc i) (o ∷ t) = find i t

  -- The test of one place, and the first place that passes.
  abbrev pub passes : (R → Bool) → Option R → Bool
  passes p none = false
  passes p (some r) = p r

  abbrev pub entry : ℕ → Option R → Option (ℕ × R)
  entry i none = none
  entry i (some r) = some (i, r)

  unfoldable pub first_from : ℕ → (R → Bool) → List (Option R) → Option (ℕ × R)
  first_from i p [] = none
  first_from i p (o ∷ t) =
      let rest = first_from (suc i) p t in if passes p o then entry i o else rest

  unfoldable pub count_from : ℕ → (ℕ → R → Bool) → List (Option R) → ℕ
  count_from i p [] = 0
  count_from i p (o ∷ t) = (if passes (p i) o then 1 else 0) + count_from (suc i) p t

  unfoldable pub put : ℕ → R → List (Option R) → List (Option R)
  put zero r [] = some r ∷ []
  put zero r (o ∷ t) = some r ∷ t
  put (suc i) r [] = none ∷ put i r []
  put (suc i) r (o ∷ t) = o ∷ put i r t

  unfoldable pub update : ℕ → (R → R) → List (Option R) → List (Option R)
  update i f [] = []
  update zero f (o ∷ t) = Option.map f o ∷ t
  update (suc i) f (o ∷ t) = o ∷ update i f t

  unfoldable pub update_many : (R → Bool) → (R → R) → List (Option R) → List (Option R)
  update_many p f [] = []
  update_many p f (o ∷ t) = Option.map (λ r. if p r then f r else r) o ∷ update_many p f t

  unfoldable pub delete : ℕ → List (Option R) → List (Option R)
  delete i [] = []
  delete zero (o ∷ t) = none ∷ t
  delete (suc i) (o ∷ t) = o ∷ delete i t

  pub find-put :
      (j i : ℕ) (r : R) (t : List (Option R))
      → find j (put i r t) ≡ (if i == j then some r else find j t)
  unfolding put
  find-put zero zero r [] = refl
  find-put zero zero r (o ∷ t) = refl
  find-put zero (suc i) r [] = ground arith
  find-put zero (suc i) r (o ∷ t) = ground arith
  find-put (suc j) zero r [] = ground arith
  find-put (suc j) zero r (o ∷ t) = ground arith
  find-put (suc j) (suc i) r [] = ground (arith, find-put j i r [])
  find-put (suc j) (suc i) r (o ∷ t) = ground (arith, find-put j i r t)

  pub find-update :
      (j i : ℕ) (f : R → R) (t : List (Option R))
      → find j (update i f t) ≡ (if i == j then Option.map f (find j t) else find j t)
  unfolding update
  find-update j i f [] = ground arith
  find-update zero zero f (o ∷ t) = refl
  find-update zero (suc i) f (o ∷ t) = ground arith
  find-update (suc j) zero f (o ∷ t) = ground arith
  find-update (suc j) (suc i) f (o ∷ t) = ground (arith, find-update j i f t)

  pub find-update_many :
      (j : ℕ) (p : R → Bool) (f : R → R) (t : List (Option R))
      → find j (update_many p f t) ≡ Option.map (λ r. if p r then f r else r) (find j t)
  unfolding update_many
  find-update_many j p f [] = refl
  find-update_many zero p f (o ∷ t) = refl
  find-update_many (suc j) p f (o ∷ t) = find-update_many j p f t

  pub find-delete :
      (j i : ℕ) (t : List (Option R)) → find j (delete i t) ≡ (if i == j then none else find j t)
  unfolding delete
  find-delete j i [] = ground arith
  find-delete zero zero (o ∷ t) = refl
  find-delete zero (suc i) (o ∷ t) = ground arith
  find-delete (suc j) zero (o ∷ t) = ground arith
  find-delete (suc j) (suc i) (o ∷ t) = ground (arith, find-delete j i t)

  -- The place found is `k` past the start.
  pub first_from-some :
      (n : ℕ) (p : R → Bool) (t : List (Option R)) (i : ℕ) (r : R)
      → first_from n p t ≡ some (i, r)
      → (k : ℕ) × (i ≡ n + k) × (find k t ≡ some r) × (p r ≡ true)
  unfolding first_from
  first_from-some n p [] i r h = cc
  first_from-some n p (none ∷ t) i r h =
      let (k, e, f, q) = first_from-some (suc n) p t i r h in (suc k, omega arith, f, q)
  first_from-some n p (some s ∷ t) i r h = elim (Bool-cases (p s)) [
    | inl y ↦ (0, ground arith, ground arith, ground arith)
    | inr x ↦
        let (k, e, f, q) = first_from-some (suc n) p t i r (ground arith) in
        (suc k, omega arith, f, q)
  ]

  pub first_from-none :
      (n : ℕ) (p : R → Bool) (t : List (Option R)) (i : ℕ) (r : R)
      → first_from n p t ≡ none
      → find i t ≡ some r
      → p r ≡ false
  unfolding first_from
  first_from-none n p [] i r h f = cc
  first_from-none n p (none ∷ t) zero r h f = cc
  first_from-none n p (some s ∷ t) zero r h f = ground arith
  first_from-none n p (none ∷ t) (suc i) r h f = first_from-none (suc n) p t i r h f
  first_from-none n p (some s ∷ t) (suc i) r h f = first_from-none (suc n) p t i r (ground arith) f

  pub count_from-found :
      (n : ℕ) (p : ℕ → R → Bool) (t : List (Option R)) (k i : ℕ) (r : R)
      → i ≡ n + k
      → find k t ≡ some r
      → p i r ≡ true
      → 0 < count_from n p t
  unfolding count_from
  count_from-found n p [] k i r e f q = cc
  count_from-found n p (o ∷ t) zero i r e f q =
      let e' : n ≡ i = omega arith in rw (f, e', q) (omega arith)
  count_from-found n p (o ∷ t) (suc k) i r e f q =
      omega (arith, count_from-found (suc n) p t k i r (omega arith) f q)

  pub count_from-pos :
      (n : ℕ) (p : ℕ → R → Bool) (t : List (Option R))
      → 0 < count_from n p t
      → (k : ℕ) × (r : R) × (find k t ≡ some r) × (p (n + k) r ≡ true)
  unfolding count_from
  count_from-pos n p [] h = absurd (omega arith)
  count_from-pos n p (none ∷ t) h =
      let (k, r, f, q) = count_from-pos (suc n) p t (omega arith) in
      let e : n + suc k ≡ suc n + k = omega arith in (suc k, r, f, rw e q)
  count_from-pos n p (some s ∷ t) h = elim (Bool-cases (p n s)) [
    | inl y ↦ let e : n + 0 ≡ n = omega arith in (0, s, refl, rw e y)
    | inr x ↦
        let (k, r, f, q) = count_from-pos (suc n) p t (ground arith) in
        let e : n + suc k ≡ suc n + k = omega arith in (suc k, r, f, rw e q)
  ]

  abbrev pub entries : (ℕ → R → Bool) → ℕ → Option R → List (ℕ × R)
  entries p i none = []
  entries p i (some r) = if p i r then (i, r) ∷ [] else []

  unfoldable pub select_from : ℕ → (ℕ → R → Bool) → List (Option R) → List (ℕ × R)
  select_from n p [] = []
  select_from n p (o ∷ t) = entries p n o ++ select_from (suc n) p t

  abbrev Found : ℕ → (ℕ → R → Bool) → List (Option R) → ℕ × R → Type 0
  Found n p t e = (k : ℕ) × (e.0 ≡ n + k) × (find k t ≡ some e.1) × (p e.0 e.1 ≡ true)

  later :
      (n : ℕ) (p : ℕ → R → Bool) (o : Option R) (t : List (Option R)) (l : List (ℕ × R))
      → All (Found (suc n) p t) l
      → All (Found n p (o ∷ t)) l
  later n p o t [] h = tt
  later n p o t (e ∷ l) ((k, a, f, q), h) = ((suc k, omega arith, f, q), later n p o t l h)

  pub select_from_sound :
      (n : ℕ) (p : ℕ → R → Bool) (t : List (Option R)) → All (Found n p t) (select_from n p t)
  unfolding select_from
  select_from_sound n p [] = tt
  select_from_sound n p (none ∷ t) = later n p none t _ (select_from_sound (suc n) p t)
  select_from_sound n p (some s ∷ t) = elim (Bool-cases (p n s)) [
    | inl y ↦
        rw y ((0, omega arith, refl, y), later n p (some s) t _ (select_from_sound (suc n) p t))
    | inr x ↦ rw x (later n p (some s) t _ (select_from_sound (suc n) p t))
  ]

  found_lem :
      (p : ℕ → R → Bool) (t : List (Option R)) (l : List (ℕ × R))
      → All (Found 0 p t) l
      → All (λ (e : ℕ × R). (find e.0 t ≡ some e.1) × (p e.0 e.1 ≡ true)) l
  found_lem p t [] h = tt
  found_lem p t (e ∷ l) ((k, a, f, q), h) =
      let a' : e.0 ≡ k = omega arith in
      ((subst (λ x. find x t ≡ some e.1) (sym a') f, q), found_lem p t l h)

  pub select_sound :
      (p : ℕ → R → Bool) (t : List (Option R))
      → All (λ (e : ℕ × R). (find e.0 t ≡ some e.1) × (p e.0 e.1 ≡ true)) (select_from 0 p t)
  select_sound p t = found_lem p t (select_from 0 p t) (select_from_sound 0 p t)

  pub select_from_complete :
      (n : ℕ) (p : ℕ → R → Bool) (t : List (Option R)) (k i : ℕ) (r : R)
      → i ≡ n + k
      → find k t ≡ some r
      → p i r ≡ true
      → any (λ (e : ℕ × R). e.0 == i) (select_from n p t) ≡ true
  unfolding select_from
  select_from_complete n p [] k i r e f q = cc
  select_from_complete n p (o ∷ t) zero i r e f q =
      let e' : n ≡ i = omega arith in rw (f, e', q) (ground arith)
  select_from_complete n p (none ∷ t) (suc k) i r e f q =
      select_from_complete (suc n) p t k i r (omega arith) f q
  select_from_complete n p (some s ∷ t) (suc k) i r e f q =
      let rest = select_from_complete (suc n) p t k i r (omega arith) f q in ground (arith, rest)

  pub weigh_from-update :
      (n : ℕ) (w : R → ℕ) (p : ℕ → R → Bool) (k : ℕ) (f : R → R) (t : List (Option R)) (r : R)
      → find k t ≡ some r
      → weigh w (select_from n p (update k f t)) + (if p (n + k) r then w r else 0)
        ≡ weigh w (select_from n p t) + (if p (n + k) (f r) then w (f r) else 0)
  unfolding select_from update
  weigh_from-update n w p k f [] r h = cc
  weigh_from-update n w p zero f (o ∷ t) r h =
      let e : n + 0 ≡ n = omega arith in rw (h, e) (ground arith)
  weigh_from-update n w p (suc k) f (none ∷ t) r h =
      let e : n + suc k ≡ suc n + k = omega arith in rw e (weigh_from-update (suc n) w p k f t r h)
  weigh_from-update n w p (suc k) f (some s ∷ t) r h =
      let e : n + suc k ≡ suc n + k = omega arith in
      rw e (ground (arith, weigh_from-update (suc n) w p k f t r h))

abbrev pub memory : (R : Type 0) → Table R
memory R = record {
  Rows = List (Option R);
  find = find;
  first = first_from 0;
  count = count_from 0;
  select = select_from 0;
  put = put;
  update = update;
  update_many = update_many;
  delete = delete;
  find-put = find-put;
  find-update = find-update;
  find-update_many = find-update_many;
  find-delete = find-delete;
  first-some = λ p t i r h.
      let (k, e, f, q) = first_from-some 0 p t i r h in
      let e' : i ≡ k = omega arith in (rw e' f, q);
  first-none = λ p t i r. first_from-none 0 p t i r;
  count-found = λ p t i r f q. count_from-found 0 p t i i r (omega arith) f q;
  count-pos = λ p t h.
      let (k, r, f, q) = count_from-pos 0 p t h in
      let e : 0 + k ≡ k = omega arith in (k, r, f, rw (← e) q);
  select_sound = select_sound;
  select_complete = λ p t i r f q. select_from_complete 0 p t i i r (omega arith) f q;
  weigh-update = λ w p i f t r h.
      let e : 0 + i ≡ i = omega arith in
      subst
        (λ x.
          weigh w (select_from 0 p (update i f t)) + (if p x r then w r else 0)
          ≡ weigh w (select_from 0 p t) + (if p x (f r) then w (f r) else 0))
        e (weigh_from-update 0 w p i f t r h);
}
