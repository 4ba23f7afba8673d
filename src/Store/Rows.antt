-- ===== src/Store/Rows.antt =====
-- Where a row that stands in a changed table comes from.
use mathlib.Core.Option
use article.Prelude.{
  ℕ, ◌≡◌, refl, ◌⊎◌, Bool, true, false, Option, none, some, arith, ◌==◌, if◌then◌else◌,
}
use article.Store.{Table}

map-eq-some {ℓ} :
    {A : Type ℓ} (f : A → A) (o : Option A) (b : A)
    → Option.map f o ≡ some b
    → (a : A) × (o ≡ some a) × (b ≡ f a)
map-eq-some f none b h = cc
map-eq-some f (some a) b h = (a, refl, cc)

module _ {R : Type 0} (T : Table R) where
  pub found-update :
      (j i : ℕ) (f : R → R) (t : T.Rows) (s : R)
      → T.find j (T.update i f t) ≡ some s
      → (r : R) × (T.find j t ≡ some r) × (s ≡ (if i == j then f r else r))
  found-update j i f t s h = go (i == j) refl
    where
      go :
          (b : Bool)
          → (i == j) ≡ b
          → (r : R) × (T.find j t ≡ some r) × (s ≡ (if i == j then f r else r))
      go true e =
          let (r, p, q) = map-eq-some f (T.find j t) s (rw (T.find-update j i f t, e) at h) in
          (r, p, rw e q)
      go false e = (s, rw (T.find-update j i f t, e) at h, rw e)

  pub found-update_many :
      (j : ℕ) (p : R → Bool) (f : R → R) (t : T.Rows) (s : R)
      → T.find j (T.update_many p f t) ≡ some s
      → (r : R) × (T.find j t ≡ some r) × (s ≡ (if p r then f r else r))
  found-update_many j p f t s h =
      map-eq-some (λ r. if p r then f r else r) (T.find j t) s (rw T.find-update_many at h)

  pub found-put :
      (j i : ℕ) (r : R) (t : T.Rows) (s : R)
      → T.find j (T.put i r t) ≡ some s
      → ((i ≡ j) × (s ≡ r)) ⊎ (T.find j t ≡ some s)
  found-put j i r t s h = ground (arith, T.find-put j i r t)

  pub found-delete :
      (j i : ℕ) (t : T.Rows) (s : R)
      → T.find j (T.delete i t) ≡ some s
      → ((i == j) ≡ false) × (T.find j t ≡ some s)
  found-delete j i t s h = ground (arith, T.find-delete j i t)

  -- A row that stays where it was, or is changed in place.
  pub update-found :
      (j i : ℕ) (f : R → R) (t : T.Rows) (r : R)
      → T.find j t ≡ some r
      → T.find j (T.update i f t) ≡ some (if i == j then f r else r)
  update-found j i f t r h = ground (arith, T.find-update j i f t)

  pub update_many-found :
      (j : ℕ) (p : R → Bool) (f : R → R) (t : T.Rows) (r : R)
      → T.find j t ≡ some r
      → T.find j (T.update_many p f t) ≡ some (if p r then f r else r)
  update_many-found j p f t r h = rw (T.find-update_many, h)
