-- ===== src/Inventory/Title.antt =====
-- Titles and the texts they are made of (crates/agent/src/session_inventory.rs). `split_whitespace`,
-- `trim` and `Path::file_name` of Rust's standard library, the last one on a Unix path, are written
-- out.
use Prim.Native.Char.{Char, code}
use Prim.Native.String.{count}
use chaop.Base.{
  ℕ, ltb, leb, ◌==◌, Bool, true, false, not, ◌&&◌, ◌||◌, String, ◌str++◌, str_eq, Option, none,
  some, or_else, List, [], ◌∷◌, if◌then◌else◌, text_lt, ◌≡◌, refl,
}
use chaop.Json.{Value, get, as_str}
use chaop.Connector.Instances.Text.{take_chars}

abbrev pub is_whitespace : Char → Bool
is_whitespace c =
    let n = code c in
    (leb 9 n && leb n 13)
    || (n == 32)
    || (n == 133)
    || (n == 160)
    || (n == 5760)
    || (leb 8192 n && leb n 8202)
    || (n == 8232)
    || (n == 8233)
    || (n == 8239)
    || (n == 8287)
    || (n == 12288)

-- `value.trim().is_empty()`
unfoldable pub is_blank : String → Bool
is_blank String.[] = true
is_blank (String.◌∷◌ c s) = is_whitespace c && is_blank s

-- What a character adds to the words behind it: the first word goes on with it unless a blank or the
-- end comes next.
abbrev starts_word : String → Bool
starts_word String.[] = false
starts_word (String.◌∷◌ c s) = not (is_whitespace c)

abbrev add_char : Char → Bool → List String → List String
add_char c joined [] = String.◌∷◌ c "" ∷ []
add_char c joined (w ∷ ws) = if joined then String.◌∷◌ c w ∷ ws else String.◌∷◌ c "" ∷ w ∷ ws

unfoldable pub split_whitespace : String → List String
split_whitespace String.[] = []
split_whitespace (String.◌∷◌ c s) =
    let words = split_whitespace s in
    if is_whitespace c then words else add_char c (starts_word s) words

unfoldable pub join_words : List String → String
join_words [] = ""
join_words (w ∷ []) = w
join_words (w ∷ v ∷ ws) = w str++ (" " str++ join_words (v ∷ ws))

abbrev pub title_limit : ℕ
title_limit = 96

abbrev cut_title : String → Option String
cut_title compact =
    if str_eq compact ""
    then none
    else if ltb title_limit (count compact)
    then some (take_chars title_limit compact str++ "...")
    else some (take_chars title_limit compact)

unfoldable pub compact_title : Option String → Option String
unfolding split_whitespace join_words take_chars
compact_title none = none
compact_title (some value) = cut_title (join_words (split_whitespace value))

unfoldable pub metadata_title : Value → Option String
unfolding compact_title get
metadata_title payload = compact_title (
    or_else (as_str (get "title" payload))
      (or_else (as_str (get "name" payload)) (as_str (get "thread_name" payload))))

unfoldable pub first_non_empty : Option String → Option String → Option String
unfolding compact_title
first_non_empty first second = or_else (compact_title first) (compact_title second)

abbrev non_blank : Option String → Option String
non_blank none = none
non_blank (some value) = if is_blank value then none else some value

unfoldable pub first_non_empty_raw : Option String → Option String → Option String
unfolding is_blank
first_non_empty_raw first second = or_else (non_blank first) (non_blank second)

unfoldable pub max_string : Option String → Option String → Option String
max_string (some first) (some second) = if text_lt second first then some first else some second
max_string (some first) none = some first
max_string none second = second

unfoldable pub short_session_id : String → String
unfolding take_chars
short_session_id session_id = take_chars 8 session_id

-- The parts of a path between its slashes.
abbrev add_to_part : Char → List String → List String
add_to_part c [] = String.◌∷◌ c "" ∷ []
add_to_part c (p ∷ ps) = String.◌∷◌ c p ∷ ps

unfoldable parts : String → List String
parts String.[] = "" ∷ []
parts (String.◌∷◌ c s) =
    let rest = parts s in if code c == 47 then "" ∷ rest else add_to_part c rest

-- The last part that is neither empty nor a dot, and nothing when that one is two dots.
last_part : Option String → List String → Option String
last_part found [] = found
last_part found (p ∷ ps) =
    last_part
      (if str_eq p "" || str_eq p "." then found else if str_eq p ".." then none else some p) ps

unfoldable pub file_name : String → Option String
unfolding parts last_part
file_name path = last_part none (parts path)

words_test : compact_title (some "  a  bc\n d ") ≡ some "a bc d"
unfolding compact_title
words_test = refl

file_name_test : file_name "/home/me/chaop/./" ≡ some "chaop"
unfolding file_name
file_name_test = refl
