-- ===== src/Inventory/RolloutPaths.antt =====
-- Which rollouts are read, and in which order (crates/agent/src/session_inventory.rs). The directory of
-- the sessions is a tree; a directory that cannot be listed, or an entry that cannot be read, is an
-- error. Names are UTF-8. A path is the list of its parts, by which Rust orders paths.
mod Recent
use Prim.Native.Char.{Char, code}
use chaop.Base.{
  ℕ, ltb, leb, ◌==◌, max, Bool, true, false, not, ◌&&◌, ◌||◌, String, str_eq, starts_with, text_lt,
  Option, none, some, List, [], ◌∷◌, ◌++◌, length, take, sort_by, if◌then◌else◌, Result, ok, err,
}
use chaop.Inventory.Sessions.{Read, and_read}

mutual
  -- A file is regular or not, and has a time of its last change or an error for it.
  pub data Entry : Type 0 where
    file : String → Bool → Option ℕ → Entry
    directory : String → Listing → Entry

  pub data Listing : Type 0 where
    end : Listing
    entry : Entry → Listing → Listing
    failed : String → Listing

abbrev pub PathBuf : Type 0
PathBuf = List String

pub record Rollout : Type 0 where
  pub path : PathBuf
  pub modified : Option ℕ

pub record Directory : Type 0 where
  pub path : PathBuf
  pub content : Listing

unfoldable pub path_lt : PathBuf → PathBuf → Bool
path_lt [] [] = false
path_lt [] (q ∷ qs) = true
path_lt (p ∷ ps) [] = false
path_lt (p ∷ ps) (q ∷ qs) = let rest = path_lt ps qs in text_lt p q || (str_eq p q && rest)

unfoldable ends_with : String → String → Bool
ends_with suffix String.[] = str_eq suffix ""
ends_with suffix (String.◌∷◌ c s) =
    let rest = ends_with suffix s in if str_eq suffix (String.◌∷◌ c s) then true else rest

abbrev is_rollout_name : String → Bool
is_rollout_name name = starts_with name "rollout-" && ends_with ".jsonl" name

unfoldable is_numeric : String → Bool
is_numeric String.[] = true
is_numeric (String.◌∷◌ c s) = leb 48 (code c) && leb (code c) 57 && is_numeric s

abbrev pub later_time : Option ℕ → Option ℕ → Bool
later_time none b = false
later_time (some a) none = true
later_time (some a) (some b) = ltb b a

abbrev same_time : Option ℕ → Option ℕ → Bool
same_time none none = true
same_time (some a) (some b) = a == b
same_time a b = false

-- The latest change first, a file without a time last, and those of one time by their paths downwards.
unfoldable pub more_recent : Rollout → Rollout → Bool
unfolding path_lt
more_recent a b =
    later_time a.modified b.modified || (same_time a.modified b.modified && path_lt b.path a.path)

unfoldable pub sort_paths_by_mtime_desc : List Rollout → List Rollout
unfolding more_recent
sort_paths_by_mtime_desc paths = sort_by more_recent paths

abbrev add_found : {A : Type 0} → Bool → A → List A → List A
add_found fits a found = if fits then a ∷ found else found

abbrev add_numeric : PathBuf → Entry → List Directory → List Directory
add_numeric root (file name regular modified) found = found
add_numeric root (directory name content) found =
    add_found (is_numeric name) (record { path = root ++ (name ∷ []); content = content }) found

unfoldable numeric_dirs : PathBuf → Listing → Read (List Directory)
unfolding is_numeric
numeric_dirs root end = ok []
numeric_dirs root (failed e) = err e
numeric_dirs root (entry e rest) =
    and_read (numeric_dirs root rest) (λ found. ok (add_numeric root e found))

abbrev later_path : Directory → Directory → Bool
later_path a b = path_lt b.path a.path

-- Both callers ask for the descending order.
unfoldable pub sorted_numeric_dirs : Directory → Read (List Directory)
unfolding numeric_dirs path_lt
sorted_numeric_dirs root =
    and_read (numeric_dirs root.path root.content) (λ dirs. ok (sort_by later_path dirs))

-- The directories below each of a list of them.
unfoldable below : List Directory → Read (List Directory)
unfolding sorted_numeric_dirs
below [] = ok []
below (d ∷ ds) =
    and_read (sorted_numeric_dirs d) (λ inner. and_read (below ds) (λ rest. ok (inner ++ rest)))

-- The loops read month by month; that the first error ends them is all that the order of the reads does.
unfoldable pub days_of_years : List Directory → Read (List Directory)
unfolding below sorted_numeric_dirs
days_of_years [] = ok []
days_of_years (year ∷ years) = and_read (sorted_numeric_dirs year) (λ months.
    and_read (below months) (λ days. and_read (days_of_years years) (λ rest. ok (days ++ rest))))

unfoldable pub dated_session_dirs : Directory → Read (List Directory)
unfolding days_of_years sorted_numeric_dirs path_lt
dated_session_dirs root =
    and_read (sorted_numeric_dirs root)
      (λ years. and_read (days_of_years years) (λ days. ok (sort_by later_path days)))

abbrev add_rollout : PathBuf → Entry → List Rollout → List Rollout
add_rollout root (directory name content) found = found
add_rollout root (file name regular modified) found =
    add_found (regular && is_rollout_name name)
      (record { path = root ++ (name ∷ []); modified = modified }) found

unfoldable rollouts_in : PathBuf → Listing → Read (List Rollout)
unfolding ends_with
rollouts_in root end = ok []
rollouts_in root (failed e) = err e
rollouts_in root (entry e rest) =
    and_read (rollouts_in root rest) (λ found. ok (add_rollout root e found))

unfoldable pub rollout_files_in_dir : Directory → Read (List Rollout)
unfolding rollouts_in sort_paths_by_mtime_desc
rollout_files_in_dir root =
    and_read (rollouts_in root.path root.content) (λ found. ok (sort_paths_by_mtime_desc found))

-- The rollouts of the days, to the first day after which there are enough.
unfoldable pub rollouts_of_days : ℕ → List Directory → List Rollout → Read (List Rollout)
unfolding rollout_files_in_dir
rollouts_of_days limit [] paths = ok paths
rollouts_of_days limit (day ∷ days) paths = and_read (rollout_files_in_dir day) (λ found.
    let more = rollouts_of_days limit days (paths ++ found) in
    if leb limit (length (paths ++ found)) then ok (paths ++ found) else more)

-- The walk through a tree that is not dated, on what is in a directory. A directory is entered only while
-- there are too few; the entries behind it are read all the same.
abbrev go_on :
    ℕ → Bool → List Rollout → Rollout → (List Rollout → Read (List Rollout)) → Read (List Rollout)
go_on limit fits paths found rest =
    if not fits
    then rest paths
    else if leb limit (length (paths ++ (found ∷ [])))
    then ok (paths ++ (found ∷ []))
    else rest (paths ++ (found ∷ []))

unfoldable pub collect_rollout_paths : Listing → ℕ → PathBuf → List Rollout → Read (List Rollout)
unfolding ends_with
collect_rollout_paths end limit root paths = ok paths
collect_rollout_paths (failed e) limit root paths = err e
collect_rollout_paths (entry (file name regular modified) rest) limit root paths =
    go_on limit (is_rollout_name name) paths
      (record { path = root ++ (name ∷ []); modified = modified })
      (λ found. collect_rollout_paths rest limit root found)
collect_rollout_paths (entry (directory name content) rest) limit root paths =
    let inner = collect_rollout_paths content limit (root ++ (name ∷ [])) paths in
    and_read (if leb limit (length paths) then ok paths else inner)
      (λ found. collect_rollout_paths rest limit root found)

abbrev pub finish_paths : ℕ → Read (List Rollout) → Read (List Rollout)
finish_paths limit (err e) = err e
finish_paths limit (ok paths) = ok (take limit (sort_paths_by_mtime_desc paths))

abbrev pub of_days : ℕ → Directory → List Directory → Read (List Rollout)
of_days limit root [] = finish_paths limit (collect_rollout_paths root.content limit root.path [])
of_days limit root (day ∷ days) = finish_paths limit (rollouts_of_days limit (day ∷ days) [])

unfoldable pub rollout_paths : Directory → ℕ → Read (List Rollout)
unfolding dated_session_dirs rollouts_of_days collect_rollout_paths sort_paths_by_mtime_desc
rollout_paths root limit = and_read (dated_session_dirs root) (of_days (max limit 1) root)
