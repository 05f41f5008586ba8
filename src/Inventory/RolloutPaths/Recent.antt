-- ===== src/Inventory/RolloutPaths/Recent.antt =====
-- The order and the number of the rollouts that are read.
use chaop.Base.{
  ◌≡◌, refl, arith, ℕ, ◌≤◌, max, true, false, List, [], ◌∷◌, ok, err, text_lt_asymm, str_eq_iff,
  is_sorted, take, sort_by-is_sorted, is_sorted-take, length, length-take,
}
use mathlib.Core.Path.{subst}
use chaop.Inventory.Sessions.{Read}
use chaop.Inventory.Report.Drafts.{and_read_cases}
use chaop.Inventory.RolloutPaths.{
  PathBuf, Rollout, Directory, path_lt, more_recent, sort_paths_by_mtime_desc, dated_session_dirs,
  rollouts_of_days, finish_paths, of_days, rollout_paths,
}

path_lt_asymm : (a b : PathBuf) → path_lt a b ≡ true → path_lt b a ≡ false
unfolding path_lt
path_lt_asymm [] [] h = refl
path_lt_asymm [] (q ∷ qs) h = refl
path_lt_asymm (p ∷ ps) [] h = absurd (cc (h))
path_lt_asymm (p ∷ ps) (q ∷ qs) h = ground (
  arith,
  path_lt_asymm ps qs,
  text_lt_asymm p q,
  text_lt_asymm q p,
  str_eq_iff p q,
  str_eq_iff q p,
)

more_recent_asymm : (a b : Rollout) → more_recent a b ≡ true → more_recent b a ≡ false
unfolding more_recent
more_recent_asymm a b h = ground (arith, path_lt_asymm a.path b.path)

-- What is read of the rollouts: the latest first, and as many as asked for at most.
record Recent (limit : ℕ) (paths : List Rollout) : Type 0 where
  few : length paths ≤ limit
  latest_first : is_sorted more_recent paths ≡ true

finish_paths-Recent :
    (limit : ℕ) (r : Read (List Rollout)) (paths : List Rollout)
    → finish_paths limit r ≡ ok paths
    → Recent limit paths
unfolding sort_paths_by_mtime_desc
finish_paths-Recent limit (err e) paths h = absurd (cc (h))
finish_paths-Recent limit (ok found) paths h =
    let sorted = sort_paths_by_mtime_desc found in
    let same : take limit sorted ≡ paths = cc (h) in
    subst (Recent limit) same (record {
      few = omega (arith, length-take limit sorted);
      latest_first =
          is_sorted-take more_recent limit sorted
            (sort_by-is_sorted more_recent more_recent_asymm found);
    })

of_days-Recent :
    (limit : ℕ) (root : Directory) (days : List Directory) (paths : List Rollout)
    → of_days limit root days ≡ ok paths
    → Recent limit paths
of_days-Recent limit root [] paths h = finish_paths-Recent limit _ paths h
of_days-Recent limit root (day ∷ days) paths h =
    finish_paths-Recent limit (rollouts_of_days limit (day ∷ days) []) paths h

-- The rollouts that are found in a tree of directories, dated or not, are in the order of their last
-- changes, the latest first, and there are at most as many of them as asked for, or one.
rollout_paths-Recent :
    (root : Directory) (limit : ℕ) (paths : List Rollout)
    → rollout_paths root limit ≡ ok paths
    → Recent (max limit 1) paths
unfolding rollout_paths
rollout_paths-Recent root limit paths h =
    let (days, dated, found) =
      and_read_cases (dated_session_dirs root) (of_days (max limit 1) root) paths h in
    of_days-Recent (max limit 1) root days paths found
