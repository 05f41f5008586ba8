-- ===== src/Inventory/Calendar/Reference.antt =====
-- The Gregorian calendar by its rules, with no regard to the code: leap years, the lengths of the
-- months, and the number of a day counted from the first day of the year one.
use chaop.Base.{ℕ, zero, suc, ◌+◌, ◌-◌, ◌*◌, ◌/◌, ◌%◌, ◌==◌, Bool, not, ◌&&◌, ◌||◌, if◌then◌else◌}

unfoldable pub is_leap : ℕ → Bool
is_leap y = (y % 4 == 0) && (not (y % 100 == 0) || (y % 400 == 0))

unfoldable pub days_in_month : ℕ → ℕ → ℕ
unfolding is_leap
days_in_month y m =
    if m == 2
    then (if is_leap y then 29 else 28)
    else if (m == 4) || (m == 6) || (m == 9) || (m == 11)
    then 30
    else 31

unfoldable pub days_before_month : ℕ → ℕ → ℕ
unfolding days_in_month
days_before_month y zero = 0
days_before_month y (suc zero) = 0
days_before_month y (suc (suc m)) = days_before_month y (suc m) + days_in_month y (suc m)

unfoldable pub days_before_year : ℕ → ℕ
days_before_year y = let p = y - 1 in p * 365 + p / 4 - p / 100 + p / 400

unfoldable pub ordinal : ℕ → ℕ → ℕ → ℕ
unfolding days_before_year days_before_month
ordinal y m d = days_before_year y + days_before_month y m + d
