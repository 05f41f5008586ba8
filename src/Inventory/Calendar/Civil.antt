-- ===== src/Inventory/Calendar/Civil.antt =====
-- `civil_from_days` against the calendar by its rules.
pub mod Months
use chaop.Base.{
  ℕ, zero, suc, ◌+◌, ◌-◌, ◌*◌, ◌/◌, ◌%◌, ◌≤◌, ◌<◌, ltb, leb, ◌==◌, if◌then◌else◌, ◌≡◌, refl, arith,
  ◌⊎◌, inl, inr, true, false, Bool, not, ◌&&◌, ◌||◌,
}
use chaop.Inventory.Calendar.{CivilDate, year_of_era, civil_from_days, day_of_year}
use chaop.Inventory.Calendar.Reference.{
  is_leap, days_in_month, days_before_month, days_before_year, ordinal,
}
use Months.{from_march, Falls, from_march-Falls}

-- the days of the era before its year y
abbrev before_year : ℕ → ℕ
before_year y = 365 * y + y / 4 - y / 100

centuries :
    (n : ℕ)
    → n < 146097
    → (n / 36524 ≡ 0) ⊎ (n / 36524 ≡ 1) ⊎ (n / 36524 ≡ 2) ⊎ (n / 36524 ≡ 3) ⊎ (n ≡ 146096)
centuries n h = omega arith

year_of_era_bound : (n : ℕ) → n < 146097 → year_of_era n ≤ 399
unfolding year_of_era
year_of_era_bound n h = omega arith

year_of_era_low : (n : ℕ) → n < 146097 → before_year (year_of_era n) ≤ n
unfolding year_of_era
year_of_era_low n h = omega (arith, centuries n h)

year_of_era_high :
    (n : ℕ) → n < 146097 → n < before_year (year_of_era n + 1) + (year_of_era n + 1) / 400
unfolding year_of_era
year_of_era_high n h = omega (arith, centuries n h)

-- The day n of the calendar is the valid date t.
pub record IsDayOf (n : ℕ) (t : CivilDate) : Type 0 where
  pub month_low : 1 ≤ t.month
  pub month_high : t.month ≤ 12
  pub day_low : 1 ≤ t.day
  pub day_high : t.day ≤ days_in_month t.year t.month
  pub day_number : ordinal t.year t.month t.day ≡ n

shifted_year : (y e : ℕ) → y ≤ 399 → days_before_year (y + e * 400 + 1) ≡ e * 146097 + before_year y
unfolding days_before_year
shifted_year y e h = omega arith

long_year :
    (y e : ℕ)
    → y ≤ 399
    → before_year y + 365 < before_year (y + 1) + (y + 1) / 400
    → is_leap (y + e * 400 + 1) ≡ true
unfolding is_leap
long_year y e h k = ground arith

short_year : (y : ℕ) → y ≤ 399 → before_year (y + 1) + (y + 1) / 400 ≤ before_year y + 366
short_year y h = omega arith

-- The epoch is the day 719163 of the calendar: on each day since, the date of `civil_from_days` is
-- a valid one, and its number in the calendar is that of the day.
pub civil_from_days-IsDayOf : (d : ℕ) → IsDayOf (d + 719163) (civil_from_days d)
unfolding civil_from_days
civil_from_days-IsDayOf d =
    let e = (d + 719468) / 146097 in
    let n = d + 719468 - e * 146097 in
    let y = year_of_era n in
    let date =
      from_march-Falls (y + e * 400) (n - before_year y) (omega arith)
        (omega (
          arith,
          year_of_era_low n (omega arith),
          year_of_era_high n (omega arith),
          short_year y (year_of_era_bound n (omega arith)),
        ))
        (λ last. long_year y e (year_of_era_bound n (omega arith)) (
          omega
            (arith, last, year_of_era_low n (omega arith), year_of_era_high n (omega arith)))) in
    record {
      month_low = date.month_low;
      month_high = date.month_high;
      day_low = date.day_low;
      day_high = date.day_high;
      day_number = omega (
        arith,
        date.falls,
        shifted_year y e (year_of_era_bound n (omega arith)),
        year_of_era_low n (omega arith),
      );
    }
