-- ===== src/Cron/WeekMath.antt =====
-- Week arithmetic (src/cron/week-math.ts). A `Date` whose time of day is midnight is the number of
-- days from Monday, 1 January of the year 401, in the Gregorian calendar; the server's time zone has
-- no daylight saving, so that two midnights are whole days apart. A year is counted from 0 for the
-- year 401, so that a count of years is one of calendars of 400 years from their beginning on, and
-- the constructor of `Date`, which moves the years below 100, takes every year here as it is.
pub mod Weeks
use tri_mc.Prelude.{
  ℕ, ◌+◌, ◌-◌, ◌*◌, ◌/◌, ◌%◌, ◌≤◌, ◌<◌, Bool, true, false, List, [], ◌∷◌, ◌++◌, if◌then◌else◌, ltb,
  leb, ◌==◌, ◌≡◌, refl, arith, Bool-cases, inl, inr,
}
use tri_mc.Prelude.Text.{Text, text, decimal}

-- The days before 1 January of the year.
unfoldable pub year_start : ℕ → ℕ
year_start n = 365 * n + n / 4 + n / 400 - n / 100

-- `getFullYear`
unfoldable pub year_of : ℕ → ℕ
unfolding year_start
year_of d = let e = d * 400 / 146097 in if leb (year_start (e + 1)) d then e + 1 else e

-- A year has 365.2425 days, up to two.
year_start-near :
    (n : ℕ) → (400 * year_start n ≤ 146097 * n + 396) × (146097 * n ≤ 400 * year_start n + 700)
unfolding year_start
year_start-near n = (omega arith, omega arith)

pub year_start-next :
    (n : ℕ) → (year_start n + 365 ≤ year_start (n + 1)) × (year_start (n + 1) ≤ year_start n + 366)
unfolding year_start
year_start-next n = (omega arith, omega arith)

pub year_of-bounds : (d : ℕ) → (year_start (year_of d) ≤ d) × (d < year_start (year_of d + 1))
unfolding year_of
year_of-bounds d =
    let e = d * 400 / 146097 in
    let (up, low) = year_start-near e in
    let (up2, low2) = year_start-near (e + 1 + 1) in
    elim (Bool-cases (leb (year_start (e + 1)) d)) [
      | inl h ↦ rw h (ground arith, omega arith)
      | inr h ↦ rw h (omega arith, ground arith)
    ]

-- `getDay() || 7`: 1 for Monday to 7 for Sunday.
abbrev pub day_num : ℕ → ℕ
day_num d = d % 7 + 1

-- The day of the year is that of the week's Thursday; `Math.ceil` of a seventh.
unfoldable pub iso_week_of : ℕ → ℕ
iso_week_of d =
    let thursday = d + 4 - day_num d in (thursday - year_start (year_of thursday) + 1 + 6) / 7

-- `String(n).padStart(2, '0')`
abbrev pad_two : ℕ → Text
pad_two n = if ltb n 10 then text "0" ++ decimal n else decimal n

unfoldable pub format_iso_week : ℕ → Text
format_iso_week week = text "W" ++ pad_two week

-- `new Date(year, 11, 28)`
unfoldable pub last_week_of_year : ℕ → ℕ
last_week_of_year n = iso_week_of (year_start (n + 1) - 4)

-- The lengths of the months before December.
abbrev month_lengths : Bool → List ℕ
month_lengths leap =
    31 ∷ (if leap then 29 else 28) ∷ 31 ∷ 30 ∷ 31 ∷ 30 ∷ 31 ∷ 31 ∷ 30 ∷ 31 ∷ 30 ∷ []

-- The month, from 1, and the day in it of a day of the year.
month_day : List ℕ → ℕ → ℕ → ℕ × ℕ
month_day [] month day = (month, day + 1)
month_day (l ∷ ls) month day =
    let rest = month_day ls (month + 1) (day - l) in if ltb day l then (month, day + 1) else rest

unfoldable pub format_date : ℕ → Text
unfolding month_day
format_date d =
    let n = year_of d in
    let leap = year_start (n + 1) == year_start n + 366 in
    let (month, day) = month_day (month_lengths leap) 1 (d - year_start n) in
    decimal (n + 401) ++ (text "-" ++ (pad_two month ++ (text "-" ++ pad_two day)))

pub record WeekShiftTokens : Type 0 where
  pub from_week : Text
  pub to_week : Text
  pub start_date : Text

-- The Monday of the week of the day after.
unfoldable pub monday_after : ℕ → ℕ
monday_after today = today + 1 - (day_num (today + 1) - 1)

unfoldable pub from_week_of : ℕ → ℕ
unfolding iso_week_of last_week_of_year
from_week_of monday =
    let to = iso_week_of monday in
    if ltb to 2 then last_week_of_year (year_of monday - 1) else to - 1

unfoldable pub compute_week_shift_tokens : ℕ → WeekShiftTokens
unfolding monday_after from_week_of
compute_week_shift_tokens today =
    let monday = monday_after today in
    record {
      from_week = format_iso_week (from_week_of monday);
      to_week = format_iso_week (iso_week_of monday);
      start_date = format_date monday;
    }
