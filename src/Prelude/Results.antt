-- ===== src/Prelude/Results.antt =====
-- Results of fallible code, with the error as a value, and their `do` notation.
use mathlib.Core.Path.{◌≡◌, refl}
use mathlib.Core.Logic.{◌⊎◌, inl, inr}
use mathlib.Core.Bool.{Bool, true, false}
use mathlib.Core.Option.{Option, none, some}
use native.Mathlib.Omega.{arith}

pub data Result {ℓ κ} (E : Type ℓ) (A : Type κ) : Type (ℓ ⊔ κ) where
  ok : A → Result E A
  err : E → Result E A

-- `if (!o) throw new Error(e)` for a value that may be null.
abbrev pub or_fail {ℓ κ} : {E : Type ℓ} {A : Type κ} → Option A → E → Result E A
or_fail none e = err e
or_fail (some a) e = ok a

-- `if (!b) throw new Error(e)`.
abbrev pub guard {ℓ} : {E : Type ℓ} → Bool → E → Result E (Unit {0})
guard false e = err e
guard true e = ok tt

pub Result-cases {ℓ κ} :
    {E : Type ℓ} {A : Type κ} (m : Result E A) → ((a : A) × (m ≡ ok a)) ⊎ ((e : E) × (m ≡ err e))
Result-cases (ok a) = inl (a, refl)
Result-cases (err e) = inr (e, refl)

-- A step that throws ends the block.
infixl 5 ◌>>=◌ ◌>>◌
abbrev pub ◌>>=◌ {ℓ κ μ} :
    {E : Type ℓ} {A : Type κ} {B : Type μ} (m : Result E A) (next : A → Result E B) → Result E B
err e >>= next = err e
ok a >>= next = next a

abbrev pub ◌>>◌ {ℓ κ} :
    {E : Type ℓ} {B : Type κ} (m : Result E (Unit {0})) (next : Result E B) → Result E B
err e >> next = err e
ok _ >> next = next

-- A block that ends well has ended well at every step; what follows from that may be used.
pub bind-ok {ℓ κ μ ν} :
    {E : Type ℓ} {A : Type κ} {B : Type μ} {C : Type ν} (m : Result E A) (next : A → Result E B)
    (b : B)
    → (m >>= next) ≡ ok b
    → ((a : A) → m ≡ ok a → next a ≡ ok b → C)
    → C
bind-ok (ok a) next b h use_it = use_it a refl h
bind-ok (err e) next b h use_it = absurd (ground arith)

pub then-ok {ℓ κ ν} :
    {E : Type ℓ} {B : Type κ} {C : Type ν} (m : Result E (Unit {0})) (next : Result E B) (b : B)
    → (m >> next) ≡ ok b
    → (m ≡ ok tt → next ≡ ok b → C)
    → C
then-ok (ok u) next b h use_it = use_it refl h
then-ok (err e) next b h use_it = absurd (ground arith)

pub or_fail-ok {ℓ κ} :
    {E : Type ℓ} {A : Type κ} (o : Option A) (e : E) (a : A) → or_fail o e ≡ ok a → o ≡ some a
or_fail-ok none e a h = absurd (ground arith)
or_fail-ok (some x) e a h = ground arith

pub guard-ok {ℓ} : {E : Type ℓ} (b : Bool) (e : E) → guard b e ≡ ok tt → b ≡ true
guard-ok true e h = refl
guard-ok false e h = absurd (ground arith)

pub ok-inj {ℓ κ} :
    {E : Type ℓ} {A : Type κ} (a b : A) (m : Result E A) → m ≡ ok a → m ≡ ok b → a ≡ b
ok-inj a b m h g = ground arith
