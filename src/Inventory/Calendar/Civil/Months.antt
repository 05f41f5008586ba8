-- ===== src/Inventory/Calendar/Civil/Months.antt =====
-- The months of `civil_from_days`, which counts a year from March.
use chaop.Base.{
  ℕ, ◌+◌, ◌-◌, ◌*◌, ◌/◌, ◌≤◌, ◌<◌, ltb, leb, if◌then◌else◌, ◌≡◌, arith, ◌⊎◌, inl, inr, true,
}
use chaop.Inventory.Calendar.{CivilDate}
use chaop.Inventory.Calendar.Reference.{
  is_leap, days_in_month, days_before_month, days_before_year, ordinal,
}

-- The date whose year starts in March of y, on its day n.
abbrev pub from_march : ℕ → ℕ → CivilDate
from_march y n =
    let piece = (5 * n + 2) / 153 in
    let m = if ltb piece 10 then piece + 3 else piece - 9 in
    record { year = if leb m 2 then y + 1 else y; month = m; day = n - (153 * piece + 2) / 5 + 1 }

-- A valid date, 305 days before the n-th day from the start of the year behind y.
pub record Falls (y n : ℕ) (t : CivilDate) : Type 0 where
  pub month_low : 1 ≤ t.month
  pub month_high : t.month ≤ 12
  pub day_low : 1 ≤ t.day
  pub day_high : t.day ≤ days_in_month t.year t.month
  pub falls : ordinal t.year t.month t.day + 305 ≡ days_before_year (y + 1) + n

next_year :
    (y : ℕ)
    → 1 ≤ y
    → days_before_year (y + 1) ≡ days_before_year y + (if is_leap y then 366 else 365)
unfolding days_before_year is_leap
next_year y h = ground arith

is_piece : (n k : ℕ) → 153 * k ≤ 5 * n + 2 → 5 * n + 2 < 153 * k + 153 → (5 * n + 2) / 153 ≡ k
is_piece n k l h = omega arith

march : (y n : ℕ) → 1 ≤ y → n ≤ 30 → Falls y n (from_march y n)
unfolding days_before_month days_in_month is_leap ordinal
march y n hy hi = rw (is_piece n 0 (omega arith) (omega arith)) (ground (arith, next_year y hy))

april : (y n : ℕ) → 1 ≤ y → 31 ≤ n → n ≤ 60 → Falls y n (from_march y n)
unfolding days_before_month days_in_month is_leap ordinal
april y n hy lo hi = rw (is_piece n 1 (omega arith) (omega arith)) (ground (arith, next_year y hy))

may : (y n : ℕ) → 1 ≤ y → 61 ≤ n → n ≤ 91 → Falls y n (from_march y n)
unfolding days_before_month days_in_month is_leap ordinal
may y n hy lo hi = rw (is_piece n 2 (omega arith) (omega arith)) (ground (arith, next_year y hy))

june : (y n : ℕ) → 1 ≤ y → 92 ≤ n → n ≤ 121 → Falls y n (from_march y n)
unfolding days_before_month days_in_month is_leap ordinal
june y n hy lo hi = rw (is_piece n 3 (omega arith) (omega arith)) (ground (arith, next_year y hy))

july : (y n : ℕ) → 1 ≤ y → 122 ≤ n → n ≤ 152 → Falls y n (from_march y n)
unfolding days_before_month days_in_month is_leap ordinal
july y n hy lo hi = rw (is_piece n 4 (omega arith) (omega arith)) (ground (arith, next_year y hy))

august : (y n : ℕ) → 1 ≤ y → 153 ≤ n → n ≤ 183 → Falls y n (from_march y n)
unfolding days_before_month days_in_month is_leap ordinal
august y n hy lo hi = rw (is_piece n 5 (omega arith) (omega arith)) (ground (arith, next_year y hy))

september : (y n : ℕ) → 1 ≤ y → 184 ≤ n → n ≤ 213 → Falls y n (from_march y n)
unfolding days_before_month days_in_month is_leap ordinal
september y n hy lo hi =
    rw (is_piece n 6 (omega arith) (omega arith)) (ground (arith, next_year y hy))

october : (y n : ℕ) → 1 ≤ y → 214 ≤ n → n ≤ 244 → Falls y n (from_march y n)
unfolding days_before_month days_in_month is_leap ordinal
october y n hy lo hi =
    rw (is_piece n 7 (omega arith) (omega arith)) (ground (arith, next_year y hy))

november : (y n : ℕ) → 1 ≤ y → 245 ≤ n → n ≤ 274 → Falls y n (from_march y n)
unfolding days_before_month days_in_month is_leap ordinal
november y n hy lo hi =
    rw (is_piece n 8 (omega arith) (omega arith)) (ground (arith, next_year y hy))

december : (y n : ℕ) → 1 ≤ y → 275 ≤ n → n ≤ 305 → Falls y n (from_march y n)
unfolding days_before_month days_in_month is_leap ordinal
december y n hy lo hi =
    rw (is_piece n 9 (omega arith) (omega arith)) (ground (arith, next_year y hy))

january : (y n : ℕ) → 1 ≤ y → 306 ≤ n → n ≤ 336 → Falls y n (from_march y n)
unfolding days_before_month days_in_month is_leap ordinal
january y n hy lo hi =
    rw (is_piece n 10 (omega arith) (omega arith)) (ground (arith, next_year y hy))

february :
    (y n : ℕ)
    → 1 ≤ y
    → 337 ≤ n
    → n ≤ 365
    → (n ≡ 365 → is_leap (y + 1) ≡ true)
    → Falls y n (from_march y n)
unfolding days_before_month days_in_month is_leap ordinal
february y n hy lo hi leap =
    rw (is_piece n 11 (omega arith) (omega arith)) (ground (arith, next_year y hy))

ranges :
    (n : ℕ)
    → n ≤ 365
    → (n ≤ 30)
      ⊎ ((31 ≤ n) × (n ≤ 60))
      ⊎ ((61 ≤ n) × (n ≤ 91))
      ⊎ ((92 ≤ n) × (n ≤ 121))
      ⊎ ((122 ≤ n) × (n ≤ 152))
      ⊎ ((153 ≤ n) × (n ≤ 183))
      ⊎ ((184 ≤ n) × (n ≤ 213))
      ⊎ ((214 ≤ n) × (n ≤ 244))
      ⊎ ((245 ≤ n) × (n ≤ 274))
      ⊎ ((275 ≤ n) × (n ≤ 305))
      ⊎ ((306 ≤ n) × (n ≤ 336))
      ⊎ (337 ≤ n)
ranges n h = omega arith

pub from_march-Falls :
    (y n : ℕ) → 1 ≤ y → n ≤ 365 → (n ≡ 365 → is_leap (y + 1) ≡ true) → Falls y n (from_march y n)
from_march-Falls y n hy h leap = elim (ranges n h) [
  | inl hi ↦ march y n hy hi
  | inr (inl (lo, hi)) ↦ april y n hy lo hi
  | inr (inr (inl (lo, hi))) ↦ may y n hy lo hi
  | inr (inr (inr (inl (lo, hi)))) ↦ june y n hy lo hi
  | inr (inr (inr (inr (inl (lo, hi))))) ↦ july y n hy lo hi
  | inr (inr (inr (inr (inr (inl (lo, hi)))))) ↦ august y n hy lo hi
  | inr (inr (inr (inr (inr (inr (inl (lo, hi))))))) ↦ september y n hy lo hi
  | inr (inr (inr (inr (inr (inr (inr (inl (lo, hi)))))))) ↦ october y n hy lo hi
  | inr (inr (inr (inr (inr (inr (inr (inr (inl (lo, hi))))))))) ↦ november y n hy lo hi
  | inr (inr (inr (inr (inr (inr (inr (inr (inr (inl (lo, hi)))))))))) ↦ december y n hy lo hi
  | inr (inr (inr (inr (inr (inr (inr (inr (inr (inr (inl (lo, hi))))))))))) ↦ january y n hy lo hi
  | inr (inr (inr (inr (inr (inr (inr (inr (inr (inr (inr lo)))))))))) ↦ february y n hy lo h leap
]
