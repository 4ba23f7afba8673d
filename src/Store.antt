-- ===== src/Store.antt =====
-- What the code relies on of the database: the tables of prisma/schema.prisma behind the calls that
-- src/lib makes of them. The database is not part of the repository, so a table is a parameter.
pub mod Memory
pub mod Rows
use article.Prelude.{
  ℕ, ◌+◌, ◌<◌, ◌≡◌, ◌≢◌, Bool, true, false, Option, none, some, List, All, ◌==◌, if◌then◌else◌, [],
  ◌∷◌, any,
}
use mathlib.Core.Option

-- The sum of a weight over selected rows.
abbrev pub weigh {ℓ} : {R : Type ℓ} → (R → ℕ) → List (ℕ × R) → ℕ
weigh w [] = 0
weigh w ((i, r) ∷ rows) = w r + weigh w rows

-- A table keyed by an opaque identifier. `find` is findUnique by id, `first` is findFirst or a
-- findUnique by another unique column, `update` and `update_many` change the rows that they select,
-- `select` is findMany in the
-- order of the database, `put` creates (or replaces) the row with that id.
pub record Table (R : Type 0) : Type 1 where
  pub Rows : Type 0
  pub find : ℕ → Rows → Option R
  pub first : (R → Bool) → Rows → Option (ℕ × R)
  pub count : (ℕ → R → Bool) → Rows → ℕ
  pub select : (ℕ → R → Bool) → Rows → List (ℕ × R)
  pub put : ℕ → R → Rows → Rows
  pub update : ℕ → (R → R) → Rows → Rows
  pub update_many : (R → Bool) → (R → R) → Rows → Rows
  pub delete : ℕ → Rows → Rows
  pub find-put :
      (j i : ℕ) (r : R) (t : Rows) → find j (put i r t) ≡ (if i == j then some r else find j t)
  pub find-update :
      (j i : ℕ) (f : R → R) (t : Rows)
      → find j (update i f t) ≡ (if i == j then Option.map f (find j t) else find j t)
  pub find-update_many :
      (j : ℕ) (p : R → Bool) (f : R → R) (t : Rows)
      → find j (update_many p f t) ≡ Option.map (λ r. if p r then f r else r) (find j t)
  pub find-delete : (j i : ℕ) (t : Rows) → find j (delete i t) ≡ (if i == j then none else find j t)
  -- A row that `first` returns is in the table and meets the test; none is returned only if no row
  -- meets it.
  pub first-some :
      (p : R → Bool) (t : Rows) (i : ℕ) (r : R)
      → first p t ≡ some (i, r)
      → (find i t ≡ some r) × (p r ≡ true)
  pub first-none :
      (p : R → Bool) (t : Rows) (i : ℕ) (r : R) → first p t ≡ none → find i t ≡ some r → p r ≡ false
  -- The count is positive exactly when some row meets the test.
  pub count-found :
      (p : ℕ → R → Bool) (t : Rows) (i : ℕ) (r : R)
      → find i t ≡ some r
      → p i r ≡ true
      → 0 < count p t
  pub count-pos :
      (p : ℕ → R → Bool) (t : Rows)
      → 0 < count p t
      → (i : ℕ) × (r : R) × (find i t ≡ some r) × (p i r ≡ true)
  -- The rows selected are in the table and meet the test; every row that meets it is selected.
  pub select_sound :
      (p : ℕ → R → Bool) (t : Rows)
      → All (λ (e : ℕ × R). (find e.0 t ≡ some e.1) × (p e.0 e.1 ≡ true)) (select p t)
  pub select_complete :
      (p : ℕ → R → Bool) (t : Rows) (i : ℕ) (r : R)
      → find i t ≡ some r
      → p i r ≡ true
      → any (λ (e : ℕ × R). e.0 == i) (select p t) ≡ true
  -- Changing one row changes what is selected by that row alone, whatever the rows weigh.
  pub weigh-update :
      (w : R → ℕ) (p : ℕ → R → Bool) (i : ℕ) (f : R → R) (t : Rows) (r : R)
      → find i t ≡ some r
      → weigh w (select p (update i f t)) + (if p i r then w r else 0)
        ≡ weigh w (select p t) + (if p i (f r) then w (f r) else 0)

-- The order in which one findMany without `orderBy` returns its rows, which may be another each time: the
-- same rows, in some order.
pub record RowOrder (R : Type 0) : Type 1 where
  pub order : List (ℕ × R) → List (ℕ × R)
  pub All-order : (P : ℕ × R → Type 0) (rows : List (ℕ × R)) → All P rows → All P (order rows)
  pub any-order : (p : ℕ × R → Bool) (rows : List (ℕ × R)) → any p (order rows) ≡ any p rows
