-- ===== src/Support/Money.antt =====
-- src/lib/money.ts: amounts in paisa. What a person types is text; the overload for a number is left
-- out, since it rounds a float. `formatAmount` leaves its work to `toLocaleString` and is left out.
use article.Prelude.{
  ℕ, suc, ◌+◌, ◌*◌, ◌-◌, ◌%◌, Bool, true, not, ◌&&◌, Option, none, some, List, [], ◌∷◌, ◌++◌, leb,
  ◌==◌, if◌then◌else◌, Text, codes, trim, trim_start, keep, all, length, is_digit, is_empty,
  get_elem?,
}

abbrev pub minor_units : ℕ
minor_units = 100

abbrev pub min_contribution_paisa : ℕ
min_contribution_paisa = 1000

abbrev pub max_contribution_paisa : ℕ
max_contribution_paisa = 100000000

-- Number.MAX_SAFE_INTEGER
abbrev pub max_safe_integer : ℕ
max_safe_integer = 9007199254740991

abbrev pub lower : ℕ → ℕ
lower c = if leb b'A' c && leb c b'Z' then c + 32 else c

-- A literal at the front of a text, in either case; none if it is not there.
abbrev pub after_prefix : Text → Text → Option Text
after_prefix [] s = some s
after_prefix (p ∷ ps) [] = none
after_prefix (p ∷ ps) (c ∷ s) = if lower c == p then after_prefix ps s else none

abbrev pub drop_dot : Text → Text
drop_dot [] = []
drop_dot (c ∷ s) = if c == b'.' then s else c ∷ s

abbrev pub or_try : Option Text → Option Text → Option Text
or_try none b = b
or_try (some a) b = some a

abbrev pub map_text : (Text → Text) → Option Text → Option Text
map_text f none = none
map_text f (some s) = some (f s)

abbrev pub or_whole : Text → Option Text → Text
or_whole s none = s
or_whole s (some t) = t

-- `.replace(/^(rs\.?|npr|\$|usd)\s*/i, "")`
unfoldable pub strip_currency : Text → Text
strip_currency s = or_whole s (
    map_text trim_start (
      or_try (map_text drop_dot (after_prefix (codes "rs") s)) (
        or_try (after_prefix (codes "npr") s)
          (or_try (after_prefix (codes "$") s) (after_prefix (codes "usd") s)))))

unfoldable pub cleaned : Text → Text
unfolding strip_currency
cleaned s = keep (λ c. not (c == b',')) (strip_currency (trim s))

-- The value of a run of digits, read on from `n`.
unfoldable pub digits_value : ℕ → Text → ℕ
digits_value n [] = n
digits_value n (c ∷ s) = digits_value (n * 10 + (c - b'0')) s

-- The digits before the first dot, and what follows it.
unfoldable pub split_dot : Text → Text × Option Text
split_dot [] = ([], none)
split_dot (c ∷ s) =
    let (major, minor) = split_dot s in if c == b'.' then ([], some s) else (c ∷ major, minor)

abbrev pub all_digits : Text → Bool
all_digits s = all is_digit s

-- /^\d+(\.\d{1,2})?$/
abbrev pub minor_ok : Option Text → Bool
minor_ok none = true
minor_ok (some m) = all_digits m && leb 1 (length m) && leb (length m) 2

abbrev pub amount_ok : Text × Option Text → Bool
amount_ok (major, minor) = not (is_empty major) && all_digits major && minor_ok minor

-- `Number(minor.padEnd(2, "0"))` for up to two digits.
unfoldable pub minor_value : Option Text → ℕ
unfolding digits_value
minor_value none = 0
minor_value (some []) = 0
minor_value (some (a ∷ [])) = digits_value 0 (a ∷ b'0' ∷ [])
minor_value (some (a ∷ b ∷ m)) = digits_value 0 (a ∷ b ∷ m)

abbrev pub paisa_of : Text × Option Text → ℕ
paisa_of (major, minor) = digits_value 0 major * minor_units + minor_value minor

abbrev pub safe_amount : Text × Option Text → Option ℕ
safe_amount parts =
    if amount_ok parts
    then (if leb (paisa_of parts) max_safe_integer then some (paisa_of parts) else none)
    else none

unfoldable pub parse_amount_to_paisa : Text → Option ℕ
unfolding cleaned split_dot minor_value
parse_amount_to_paisa input = safe_amount (split_dot (cleaned input))

unfoldable pub is_acceptable_amount : ℕ → Bool
is_acceptable_amount paisa =
    leb paisa max_safe_integer
    && leb min_contribution_paisa paisa
    && leb paisa max_contribution_paisa

unfoldable pub sum_from : ℕ → List ℕ → ℕ
sum_from total [] = total
sum_from total (amount ∷ amounts) = sum_from (total + amount) amounts

unfoldable pub sum_paisa : List ℕ → ℕ
unfolding sum_from
sum_paisa amounts = sum_from 0 amounts

abbrev pub reference_alphabet : Text
reference_alphabet = codes "ACDEFGHJKLMNPQRTUVWXY349"

abbrev pub letter : Option ℕ → Text
letter none = []
letter (some c) = c ∷ []

-- The loop over the bytes, the dash behind the fourth.
pub reference_from : ℕ → List ℕ → Text
reference_from i [] = []
reference_from i (b ∷ bytes) =
    (letter (get_elem? reference_alphabet (b % length reference_alphabet))
      ++ (if i == 3 then b'-' ∷ [] else []))
    ++ reference_from (suc i) bytes

-- Over the eight bytes that the caller draws.
unfoldable pub contribution_reference : List ℕ → Text
unfolding reference_from
contribution_reference bytes = codes "SUP-" ++ reference_from 0 bytes
