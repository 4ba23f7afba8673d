-- ===== src/Articles/Slugs/Decimals.antt =====
-- The numbers that `${n}` writes.
use article.Prelude.{
  ℕ, zero, suc, ◌+◌, ◌*◌, ◌/◌, ◌%◌, ◌-◌, ◌<◌, ◌≡◌, refl, List, [], ◌∷◌, ◌++◌, arith, Text, sym, ◌∙◌,
  ap, ◌≢◌,
}
use article.Articles.Slugs.{decimal_from, decimal, numbered, length}

-- The number that a row of digits stands for.
abbrev value : ℕ → Text → ℕ
value n [] = n
value n (c ∷ s) = value (n * 10 + (c - b'0')) s

value-append : (n : ℕ) (s t : Text) → value n (s ++ t) ≡ value (value n s) t
value-append n [] t = refl
value-append n (c ∷ s) t = value-append (n * 10 + (c - b'0')) s t

value-decimal_from : (k n : ℕ) → n < k → value 0 (decimal_from k n) ≡ n
unfolding decimal_from
value-decimal_from zero n h = absurd (omega arith)
value-decimal_from (suc k) n h =
    let rest = value-decimal_from k (n / 10) in
    ground (arith, rest, value-append 0 (decimal_from k (n / 10)) ((b'0' + n % 10) ∷ []))

-- Different numbers are written differently.
pub decimal_inj : (m n : ℕ) → decimal m ≡ decimal n → m ≡ n
unfolding decimal
decimal_inj m n h =
    sym (value-decimal_from (suc m) m (omega arith))
    ∙ ap (value 0) h
    ∙ value-decimal_from (suc n) n (omega arith)

append_inj {ℓ} : {A : Type ℓ} (xs ys zs : List A) → xs ++ ys ≡ xs ++ zs → ys ≡ zs
append_inj [] ys zs h = h
append_inj (x ∷ xs) ys zs h = append_inj xs ys zs cc

pub numbered_inj : (root : Text) (m n : ℕ) → numbered root m ≡ numbered root n → m ≡ n
numbered_inj root m n h =
    let e : b'-' ∷ decimal m ≡ b'-' ∷ decimal n = append_inj root _ _ h in decimal_inj m n cc

length-append {ℓ} : {A : Type ℓ} (xs ys : List A) → length (xs ++ ys) ≡ length xs + length ys
length-append [] ys = omega arith
length-append (x ∷ xs) ys = omega (arith, length-append xs ys)

pub numbered_longer : (root : Text) (n : ℕ) → numbered root n ≢ root
numbered_longer root n h =
    let e = ap length h in omega (arith, e, length-append root (b'-' ∷ decimal n))
