-- ===== src/Cron/WeekMath/Weeks.antt =====
-- The weeks that the tokens name.
use tri_mc.Prelude.{
  ℕ, zero, suc, ◌+◌, ◌-◌, ◌/◌, ◌%◌, ◌≤◌, ◌<◌, ◌≡◌, refl, sym, ap, subst, ◌∙◌, inl, inr, ltb, arith,
  Bool-cases,
}
use tri_mc.Cron.WeekMath.{
  year_start, year_of, year_of-bounds, year_start-next, day_num, iso_week_of, last_week_of_year,
  monday_after, from_week_of, compute_week_shift_tokens, format_date, format_iso_week,
}

year_start_mono : (m n : ℕ) → m ≤ n → year_start m ≤ year_start n
unfolding year_start
year_start_mono m n h = omega arith

year_of_unique : (d n : ℕ) → year_start n ≤ d → d < year_start (n + 1) → year_of d ≡ n
year_of_unique d n low high =
    let (l, h) = year_of-bounds d in
    elim (Bool-cases (ltb (year_of d) n)) [
      | inl less ↦
          (let mono = year_start_mono (year_of d + 1) n (ground arith) in absurd (omega arith))
      | inr not_less ↦ elim (Bool-cases (ltb n (year_of d))) [
        | inl more ↦
            (let mono = year_start_mono (n + 1) (year_of d) (ground arith) in absurd (omega arith))
        | inr not_more ↦ ground arith
      ]
    ]

-- The number of a week whose Thursday lies in the year `n`.
week_in :
    (d n : ℕ)
    → year_start n ≤ d + 4 - day_num d
    → d + 4 - day_num d < year_start (n + 1)
    → iso_week_of d ≡ (d + 4 - day_num d - year_start n) / 7 + 1
unfolding iso_week_of
week_in d n low high = rw (year_of_unique (d + 4 - day_num d) n low high) (omega arith)

-- A week has a number from 1 to 53, which is that of its Monday.
week_bounds :
    (d : ℕ) → (1 ≤ iso_week_of d) × (iso_week_of d ≤ 53) × (iso_week_of d ≡ iso_week_of (d - d % 7))
week_bounds d =
    let n = year_of (d + 4 - day_num d) in
    let (low, high) = year_of-bounds (d + 4 - day_num d) in
    let (least, most) = year_start-next n in
    let same : d + 4 - day_num d ≡ d - d % 7 + 4 - day_num (d - d % 7) = omega arith in
    rw (week_in d n low high, week_in (d - d % 7) n (rw (← same) low) (rw (← same) high))
      (omega arith, omega arith, omega arith)

-- The facts on a Monday of the year `n + 1` in whose week that year's first Thursday lies, from the
-- starts of the years `n`, `n + 1` and `n + 2`: the last week of the year before.
module _ (m n a b c : ℕ) where
  -- The week before a Monday in January.
  in_january :
      m % 7 ≡ 0
      → a + 365 ≤ b
      → b ≤ m
      → m + 3 < b + 7
      → (m - 7 + 4 - day_num (m - 7)) ≡ (b - 4 + 4 - day_num (b - 4))
  in_january monday long low first = omega arith

  -- The week before a Monday in December, and the last week of the year before that: both are the
  -- 52nd.
  in_december :
      m % 7 ≡ 0
      → a + 365 ≤ b
      → b ≤ a + 366
      → b + 365 ≤ c
      → c ≤ b + 366
      → m < c
      → c ≤ m + 3
      → ((m - 7 + 4 - day_num (m - 7) - b) / 7 + 1 ≡ 52)
        × ((b - 4 + 4 - day_num (b - 4) - a) / 7 + 1 ≡ 52)
  in_december monday long1 short1 long2 short2 low first = (omega arith, omega arith)

same_thursday : (d e : ℕ) → d + 4 - day_num d ≡ e + 4 - day_num e → iso_week_of d ≡ iso_week_of e
unfolding iso_week_of
same_thursday d e q = rw q refl

from_week_first :
    (m n : ℕ)
    → iso_week_of m ≡ 1
    → year_of m ≡ n + 1
    → from_week_of m ≡ iso_week_of (year_start (n + 1) - 4)
unfolding from_week_of
from_week_first m n one year =
    rw (one, year)
      (unfold last_week_of_year in ap (λ k. iso_week_of (year_start (k + 1) - 4)) (omega arith))

from_week_later : (m : ℕ) → 2 ≤ iso_week_of m → from_week_of m ≡ iso_week_of m - 1
unfolding from_week_of
from_week_later m two = ground arith

-- The week that the tokens count from is the one before, over the turn of a year too: the year that
-- the code takes is not always the one before the week's own, but its last week has that number.
from_week_before : (m n : ℕ) → m % 7 ≡ 0 → year_of m ≡ n + 1 → from_week_of m ≡ iso_week_of (m - 7)
from_week_before m n monday year =
    let (low, high) = year_of-bounds m in
    let low' : year_start (n + 1) ≤ m = rw (← year) low in
    let high' : m < year_start (n + 1 + 1) = rw (← year) high in
    let (long1, short1) = year_start-next n in
    let (long2, short2) = year_start-next (n + 1) in
    elim (Bool-cases (ltb (m + 3) (year_start (n + 1 + 1)))) [
      | inl inside ↦ elim (Bool-cases (ltb (m + 3) (year_start (n + 1) + 7))) [
        | inl first ↦
            let to = week_in m (n + 1) (omega arith) (ground arith) in
            from_week_first m n (to ∙ ground arith) year
            ∙ sym (
                same_thursday (m - 7) (year_start (n + 1) - 4) (
                  in_january m n (year_start n) (year_start (n + 1)) 0 monday long1 low'
                    (ground arith)))
        | inr later ↦
            let inside' : m + 3 < year_start (n + 1 + 1) = ground arith in
            let later' : year_start (n + 1) + 7 ≤ m + 3 = ground arith in
            let to = week_in m (n + 1) (omega arith) (omega arith) in
            let back = week_in (m - 7) (n + 1) (omega arith) (omega arith) in
            rw (from_week_later m (rw to (omega arith)), to, back) (omega arith)
      ]
      | inr outside ↦
          let outside' : year_start (n + 1 + 1) ≤ m + 3 = ground arith in
          let (long3, short3) = year_start-next (n + 1 + 1) in
          let to = week_in m (n + 1 + 1) (omega arith) (omega arith) in
          let back = week_in (m - 7) (n + 1) (omega arith) (omega arith) in
          let last = week_in (year_start (n + 1) - 4) n (omega arith) (omega arith) in
          let (is52, too) =
            in_december m n (year_start n) (year_start (n + 1)) (year_start (n + 1 + 1)) monday
              long1 short1 long2 short2 high' outside' in
          from_week_first m n (to ∙ omega arith) year ∙ last ∙ too ∙ sym is52 ∙ sym back
    ]

later_year_go : (m y : ℕ) → 365 ≤ m → year_of m ≡ y → (n : ℕ) × (year_of m ≡ n + 1)
unfolding year_start
later_year_go m zero h e =
    let high = (year_of-bounds m).1 in
    let high' : m < year_start (0 + 1) = subst (λ k. m < year_start (k + 1)) e high in
    absurd (omega arith)
later_year_go m (suc n) h e = (n, e ∙ omega arith)

later_year : (m : ℕ) → 365 ≤ m → (n : ℕ) × (year_of m ≡ n + 1)
later_year m h = later_year_go m (year_of m) h refl

-- The tokens of a run on any day from 1 January of the year 403 on: the date is that of a Monday,
-- which is the day after the run or up to six days before that; the week to shift to is the ISO week
-- of the day after the run, and the week to shift from is that of seven days earlier, over the turn
-- of every year. Each week has a number from 1 to 53.
pub compute_week_shift_tokens-weeks :
    (today : ℕ)
    → 730 ≤ today
    → let monday = monday_after today in
      let tokens = compute_week_shift_tokens today in
      (monday % 7 ≡ 0)
      × (monday ≤ today + 1)
      × (today + 1 ≤ monday + 6)
      × (tokens.start_date ≡ format_date monday)
      × (tokens.to_week ≡ format_iso_week (iso_week_of (today + 1)))
      × (tokens.from_week ≡ format_iso_week (iso_week_of (today + 1 - 7)))
      × (1 ≤ iso_week_of (today + 1))
      × (iso_week_of (today + 1) ≤ 53)
unfolding compute_week_shift_tokens monday_after
compute_week_shift_tokens-weeks today late =
    let m = today + 1 - (day_num (today + 1) - 1) in
    let (least, most, same) = week_bounds (today + 1) in
    let (l', m', before) = week_bounds (today + 1 - 7) in
    let (n, year) = later_year m (omega arith) in
    let from : from_week_of m ≡ iso_week_of (today + 1 - 7) =
      from_week_before m n (omega arith) year ∙ ap iso_week_of (omega arith) ∙ sym before in
    let to : iso_week_of m ≡ iso_week_of (today + 1) = ap iso_week_of (omega arith) ∙ sym same in
    (
      omega arith,
      omega arith,
      omega arith,
      refl,
      ap format_iso_week to,
      ap format_iso_week from,
      least,
      most,
    )
