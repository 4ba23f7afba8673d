-- ===== src/Support/Calendar.antt =====
-- `membershipPeriodEnd` of src/lib/money.ts, over the parts of a UTC date that it reads and sets.
use article.Prelude.{
  ℕ, ◌+◌, ◌-◌, ◌/◌, ◌%◌, ◌≤◌, ◌≡◌, Bool, true, false, not, ◌&&◌, ◌||◌, arith, leb, ◌==◌,
  if◌then◌else◌, min, refl, Bool-cases, inl, inr,
}

-- A UTC date: the month counts from 0 and the day from 1; `time` is the time of day.
pub record Date : Type 0 where
  pub year : ℕ
  pub month : ℕ
  pub day : ℕ
  pub time : ℕ

abbrev pub is_leap : ℕ → Bool
is_leap y = (y % 4 == 0 && not (y % 100 == 0)) || y % 400 == 0

unfoldable pub days_in_month : ℕ → ℕ → ℕ
days_in_month y m =
    if m == 1
    then (if is_leap y then 29 else 28)
    else if m == 3 || m == 5 || m == 8 || m == 10
    then 30
    else 31

-- `setUTCMonth`: a day past the end of the month runs into the next one.
pub set_utc_month : Date → ℕ → Date
set_utc_month d m =
    let y = d.year + m / 12 in
    let mo = m % 12 in
    let over = d.day - days_in_month y mo in
    if leb d.day (days_in_month y mo)
    then record d { year = y; month = mo }
    else if mo == 11
    then record d { year = y + 1; month = 0; day = over }
    else record d { year = y; month = mo + 1; day = over }

-- `setUTCDate(0)`: the last day of the month before.
pub last_of_previous : Date → Date
last_of_previous d =
    if d.month == 0
    then record d { year = d.year - 1; month = 11; day = 31 }
    else record d { month = d.month - 1; day = days_in_month d.year (d.month - 1) }

unfoldable pub membership_period_end : Date → ℕ → Date
unfolding set_utc_month last_of_previous
membership_period_end start interval_months =
    let end = set_utc_month start (start.month + interval_months) in
    if not (end.day == start.day) then last_of_previous end else end

days_in_month_pos : (y m : ℕ) → (28 ≤ days_in_month y m) × (days_in_month y m ≤ 31)
unfolding days_in_month
days_in_month_pos y m = ground arith

december : (y : ℕ) → days_in_month y 11 ≡ 31
unfolding days_in_month
december y = refl

last_of_previous-january :
    (d : Date) (y over : ℕ)
    → last_of_previous (record d { year = y + 1; month = 0; day = over })
      ≡ record d { year = y; month = 11; day = 31 }
unfolding last_of_previous
last_of_previous-january d y over = let e : y + 1 - 1 ≡ y = omega arith in rw e

last_of_previous-later :
    (d : Date) (y m over : ℕ)
    → last_of_previous (record d { year = y; month = m + 1; day = over })
      ≡ record d { year = y; month = m; day = days_in_month y m }
unfolding last_of_previous
last_of_previous-later d y m over =
    let e : m + 1 - 1 ≡ m = omega arith in
    let ne : (m + 1 == 0) ≡ false = ground arith in rw (ne, e)

-- The step after `setUTCMonth`, for the year and month that it aims at.
abbrev aimed : Date → ℕ → ℕ → Date
aimed d y m =
    if leb d.day (days_in_month y m)
    then record d { year = y; month = m }
    else if m == 11
    then record d { year = y + 1; month = 0; day = d.day - days_in_month y m }
    else record d { year = y; month = m + 1; day = d.day - days_in_month y m }

aimed_lem :
    (d : Date) (y m : ℕ)
    → 1 ≤ d.day
    → (if not ((aimed d y m).day == d.day) then last_of_previous (aimed d y m) else aimed d y m)
      ≡ record d { year = y; month = m; day = min d.day (days_in_month y m) }
aimed_lem d y m h = elim (Bool-cases (leb d.day (days_in_month y m))) [
  | inl fits ↦
      let same : (d.day == d.day) ≡ true = ground arith in
      let low : min d.day (days_in_month y m) ≡ d.day = ground arith in rw (fits, same, low)
  | inr over ↦
      let (pos, _) = days_in_month_pos y m in
      let moved : (d.day - days_in_month y m == d.day) ≡ false = ground arith in
      let low : min d.day (days_in_month y m) ≡ days_in_month y m = ground arith in
      elim (Bool-cases (m == 11)) [
        | inl last ↦
            let e : m ≡ 11 = ground arith in
            let dec : days_in_month y m ≡ 31 = rw e (december y) in
            rw (over, last, moved, last_of_previous-january, low, dec, e)
        | inr earlier ↦ rw (over, earlier, moved, last_of_previous-later, low)
      ]
]

-- A membership runs out that many calendar months after its start, at the same time of day, on the
-- same day of the month, or on the last day of a month that is too short for it.
pub membership_period_end_lem :
    (start : Date) (n : ℕ)
    → 1 ≤ start.day
    → let y = start.year + (start.month + n) / 12 in
      let m = (start.month + n) % 12 in
      membership_period_end start n
      ≡ record { year = y; month = m; day = min start.day (days_in_month y m); time = start.time }
unfolding membership_period_end
membership_period_end_lem start n h =
    aimed_lem start (start.year + (start.month + n) / 12) ((start.month + n) % 12) h
