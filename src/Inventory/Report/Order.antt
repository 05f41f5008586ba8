-- ===== src/Inventory/Report/Order.antt =====
-- The order and the size of a report.
use chaop.Base.{
  ◌≡◌, arith, true, false, List, ℕ, ◌≤◌, text_lt_asymm, str_eq_iff, sort_by, is_sorted,
  sort_by-is_sorted, is_sorted-take, take, length, length-take,
}
use chaop.Inventory.Report.{AgentHostSession, comes_before}

pub comes_before_asymm :
    (a b : AgentHostSession) → comes_before a b ≡ true → comes_before b a ≡ false
unfolding comes_before
comes_before_asymm a b h = ground (
  arith,
  text_lt_asymm a.updated_at b.updated_at,
  text_lt_asymm b.updated_at a.updated_at,
  text_lt_asymm a.session_id b.session_id,
  str_eq_iff a.updated_at b.updated_at,
  str_eq_iff b.updated_at a.updated_at,
)

pub sessions_sorted :
    (n : ℕ) (xs : List AgentHostSession)
    → is_sorted comes_before (take n (sort_by comes_before xs)) ≡ true
sessions_sorted n xs =
    is_sorted-take comes_before n (sort_by comes_before xs)
      (sort_by-is_sorted comes_before comes_before_asymm xs)

pub sessions_few : (n : ℕ) (xs : List AgentHostSession) → length (take n xs) ≤ n
sessions_few n xs = omega (arith, length-take n xs)
