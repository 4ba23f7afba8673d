-- ===== src/Support/Amounts.antt =====
-- What is read from a typed amount by `parseAmountToPaisa` of src/lib/money.ts.
use article.Prelude.{
  ℕ, ◌+◌, ◌*◌, ◌-◌, ◌≡◌, refl, Bool, true, false, not, none, some, [], ◌∷◌, ◌++◌, arith, leb, ◌==◌,
  if◌then◌else◌, Text, trim, all, is_digit, is_space, keep, trim_start, trim_end, ◌||◌,
}
use article.Support.Money.{
  parse_amount_to_paisa, cleaned, split_dot, strip_currency, digits_value, minor_value,
  max_safe_integer, amount_ok,
}

-- The characters of a plain decimal.
abbrev is_plain : ℕ → Bool
is_plain c = is_digit c || c == b'.'

trim_end_plain : (s : Text) → all is_plain s ≡ true → trim_end s ≡ s
unfolding trim_end
trim_end_plain [] h = refl
trim_end_plain (c ∷ s) h =
    let rest = trim_end_plain s (ground arith) in
    let solid : is_space c ≡ false = plain_solid c (ground arith) in rw (solid, rest)
  where
    plain_solid : (c : ℕ) → is_plain c ≡ true → is_space c ≡ false
    plain_solid c e = ground arith

trim_start_plain : (s : Text) → all is_plain s ≡ true → trim_start s ≡ s
unfolding trim_start
trim_start_plain [] h = refl
trim_start_plain (c ∷ s) h = let solid : is_space c ≡ false = ground arith in rw solid

trim_plain : (s : Text) → all is_plain s ≡ true → trim s ≡ s
unfolding trim
trim_plain s h = rw (trim_end_plain s h) (trim_start_plain s h)

keep_plain : (s : Text) → all is_plain s ≡ true → keep (λ c. not (c == b',')) s ≡ s
keep_plain [] h = refl
keep_plain (c ∷ s) h =
    let rest = keep_plain s (ground arith) in
    let other : (c == b',') ≡ false = ground arith in rw (other, rest)

-- A text that starts with a digit has no currency in front.
strip_digit : (c : ℕ) (s : Text) → is_digit c ≡ true → strip_currency (c ∷ s) ≡ c ∷ s
unfolding strip_currency
strip_digit c s h = ground arith

split_digits : (ds m : Text) → all is_digit ds ≡ true → split_dot (ds ++ b'.' ∷ m) ≡ (ds, some m)
unfolding split_dot
split_digits [] m h = refl
split_digits (c ∷ ds) m h =
    let rest = split_digits ds m (ground arith) in
    let other : (c == b'.') ≡ false = ground arith in rw (other, rest)

plain_digits :
    (ds m : Text)
    → all is_digit ds ≡ true
    → all is_plain m ≡ true
    → all is_plain (ds ++ b'.' ∷ m) ≡ true
plain_digits [] m h k = ground arith
plain_digits (c ∷ ds) m h k = ground (arith, plain_digits ds m)

cleaned_plain :
    (d : ℕ) (ds m : Text)
    → is_digit d ≡ true
    → all is_digit ds ≡ true
    → all is_plain m ≡ true
    → cleaned (d ∷ (ds ++ b'.' ∷ m)) ≡ d ∷ (ds ++ b'.' ∷ m)
unfolding cleaned
cleaned_plain d ds m h k l =
    let p : all is_plain (d ∷ (ds ++ b'.' ∷ m)) ≡ true = ground (arith, plain_digits ds m k l) in
    rw (trim_plain _ p, strip_digit d (ds ++ b'.' ∷ m) h) (keep_plain _ p)

two_digits : (a b : ℕ) → digits_value 0 (a ∷ b ∷ []) ≡ (a - b'0') * 10 + (b - b'0')
unfolding digits_value
two_digits a b = omega arith

-- An amount written as digits, a dot and two digits is read exactly, to the paisa, as long as it is a
-- safe integer, and is refused beyond that.
pub parse_amount_decimal :
    (d : ℕ) (ds : Text) (a b : ℕ)
    → is_digit d ≡ true
    → all is_digit ds ≡ true
    → is_digit a ≡ true
    → is_digit b ≡ true
    → let paisa = digits_value 0 (d ∷ ds) * 100 + ((a - b'0') * 10 + (b - b'0')) in
      parse_amount_to_paisa (d ∷ (ds ++ b'.' ∷ a ∷ b ∷ []))
      ≡ (if leb paisa max_safe_integer then some paisa else none)
unfolding parse_amount_to_paisa minor_value
parse_amount_decimal d ds a b hd hds ha hb =
    let m = a ∷ b ∷ [] in
    let clean = cleaned_plain d ds m hd hds (ground arith) in
    let split : split_dot (d ∷ (ds ++ b'.' ∷ m)) ≡ (d ∷ ds, some m) =
      split_digits (d ∷ ds) m (ground arith) in
    let minor : digits_value 0 m ≡ (a - b'0') * 10 + (b - b'0') = two_digits a b in
    let fine : amount_ok (d ∷ ds, some m) ≡ true = ground arith in
    rw (clean, split, fine) (rw minor)
