-- ===== src/Inventory/RecentLines.antt =====
-- The last lines of a file, which is read backwards in chunks (crates/agent/src/session_inventory.rs).
-- The bytes of the file are an argument, or the error of opening it; they do not change while it is
-- read. `String::from_utf8_lossy` is a parameter, for one line: a line feed is never part of a longer
-- sequence, so that the text of the whole splits where the bytes do.
pub mod Equals
use chaop.Base.{
  ℕ, zero, suc, ◌+◌, ◌-◌, min, ltb, leb, ◌==◌, Bool, true, false, ◌&&◌, String, List, [], ◌∷◌, ◌++◌,
  map, length, take, drop, if◌then◌else◌, Result, ok, err,
}
use chaop.Inventory.Sessions.{Read, and_read}

abbrev pub chunk_len : ℕ
chunk_len = 8192

abbrev line_feed : ℕ
line_feed = 10

abbrev carriage_return : ℕ
carriage_return = 13

unfoldable pub newlines : List ℕ → ℕ
newlines [] = 0
newlines (b ∷ bs) = let rest = newlines bs in if b == line_feed then suc rest else rest

-- `text.lines()`: a line goes up to a line feed, without the carriage return before that.
abbrev pub at_line_feed : List ℕ → Bool
at_line_feed [] = false
at_line_feed (b ∷ bs) = b == line_feed

abbrev pub add_byte : ℕ → List (List ℕ) → List (List ℕ)
add_byte b [] = (b ∷ []) ∷ []
add_byte b (l ∷ ls) = (b ∷ l) ∷ ls

unfoldable pub lines : List ℕ → List (List ℕ)
lines [] = []
lines (b ∷ bs) =
    let rest = lines bs in
    if b == line_feed
    then [] ∷ rest
    else if (b == carriage_return) && at_line_feed bs
    then rest
    else add_byte b rest

-- The loop: `bytes` are those behind `position`. A round reads a byte at least, so that the length of
-- the file is enough fuel.
unfoldable pub read_back : ℕ → ℕ → List ℕ → ℕ → List ℕ → ℕ → List ℕ
unfolding newlines
read_back zero limit file position bytes newline_count = bytes
read_back (suc fuel) limit file position bytes newline_count =
    let read_len = min position chunk_len in
    let start = position - read_len in
    let chunk = take read_len (drop start file) in
    let more = read_back fuel limit file start (chunk ++ bytes) (newline_count + newlines chunk) in
    if ltb 0 position && leb newline_count limit then more else bytes

abbrev pub keep_last {ℓ} : {A : Type ℓ} → ℕ → List A → List A
keep_last limit ls = if ltb limit (length ls) then drop (length ls - limit) ls else ls

unfoldable pub recent_lines : ℕ → List ℕ → List (List ℕ)
unfolding read_back lines
recent_lines limit file =
    keep_last limit (lines (read_back (length file) limit file (length file) [] 0))

unfoldable pub read_recent_lines : (List ℕ → String) → Read (List ℕ) → ℕ → Read (List String)
unfolding recent_lines
read_recent_lines decode file limit =
    if limit == 0
    then ok []
    else and_read file (λ bytes. ok (map decode (recent_lines limit bytes)))
