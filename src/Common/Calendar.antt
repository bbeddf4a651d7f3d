-- ===== src/Common/Calendar.antt =====
-- Go's `time.Time` in UTC, as nanoseconds since the first of January of the year 1, and its
-- `AddDate` for years (package time): the date of the same month and day in the later year, with
-- the 29th of February going to the first of March where that year has none.
use grpc_datacon.Common.{
  ℕ, ◌+◌, ◌-◌, ◌*◌, ◌%◌, ◌/◌, ◌≤◌, Bool, ltb, leb, not, ◌&&◌, ◌||◌, if◌then◌else◌, ◌==◌, nat_eq,
  ◌≡◌, refl, arith,
}

abbrev pub Time : Type 0
Time = ℕ

abbrev pub second : ℕ
second = 1_000_000_000

abbrev pub day : ℕ
day = 86_400_000_000_000

-- The years before a day, with the number of the day in its year.
pub record YearDay : Type 0 where
  pub year : ℕ
  pub yday : ℕ

-- Cycles of 400 years, of 100, of 4 and single ones; a cycle's last part may be a day longer.
unfoldable pub year_day : ℕ → YearDay
year_day d =
    let n400 = d / 146_097 in
    let d1 = d - 146_097 * n400 in
    let n100 = d1 / 36_524 - d1 / 36_524 / 4 in
    let d2 = d1 - 36_524 * n100 in
    let n4 = d2 / 1_461 in
    let d3 = d2 - 1_461 * n4 in
    let n1 = d3 / 365 - d3 / 365 / 4 in
    record { year = 400 * n400 + 100 * n100 + 4 * n4 + n1; yday = d3 - 365 * n1 }

-- The days before a year, of which `y` have passed.
unfoldable pub days_before : ℕ → ℕ
days_before y = 365 * y + y / 4 - y / 100 + y / 400

-- `y` years have passed: the year is `y + 1`.
unfoldable pub is_leap : ℕ → Bool
is_leap y = (y + 1) % 4 == 0 && (not ((y + 1) % 100 == 0) || (y + 1) % 400 == 0)

unfoldable pub same_day : Bool → Bool → ℕ → ℕ
same_day from to yday =
    if from
    then if to then yday else if leb yday 59 then yday else yday - 1
    else if to
    then if ltb yday 59 then yday else yday + 1
    else yday

-- `t.AddDate(n, 0, 0)`
unfoldable pub add_years : Time → ℕ → Time
unfolding year_day days_before is_leap same_day
add_years t n =
    let at_day = year_day (t / day) in
    let year = at_day.year + n in
    (days_before year + same_day (is_leap at_day.year) (is_leap year) at_day.yday) * day + t % day

days_before-year_day : (d : ℕ) → days_before (year_day d).year + (year_day d).yday ≡ d
unfolding year_day days_before
days_before-year_day d = omega arith

days_before-add : (y n : ℕ) → days_before y + 365 * n ≤ days_before (y + n)
unfolding days_before
days_before-add y n = omega arith

same_day-le : (from to : Bool) (yday : ℕ) → yday ≤ same_day from to yday + 1
unfolding same_day
same_day-le from to yday = ground arith

-- A year later is later by 364 days at least.
pub add_years_later : (t n : ℕ) → t + 364 * day ≤ add_years t (n + 1)
unfolding add_years
add_years_later t n =
    let at_day = year_day (t / day) in
    omega (
      arith,
      days_before-year_day (t / day),
      days_before-add at_day.year (n + 1),
      same_day-le (is_leap at_day.year) (is_leap (at_day.year + (n + 1))) at_day.yday,
    )

-- 2024-02-29 and 2023-12-31, with the time of the day kept.
leap_day : add_years (738_944 * day + 5) 1 ≡ 739_310 * day + 5
unfolding add_years year_day days_before is_leap same_day
leap_day = refl
