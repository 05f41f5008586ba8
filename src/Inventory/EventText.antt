-- ===== src/Inventory/EventText.antt =====
-- The texts of backfilled events (crates/agent/src/session_inventory.rs): what a message says without
-- the context that a client put in front of it. `trim`, `strip_prefix` and `rfind` of Rust's standard
-- library are written out.
use Prim.Native.Char.{Char, code}
use Prim.Native.String.{count}
use chaop.Base.{
  ℕ, ltb, leb, ◌==◌, Bool, false, not, ◌||◌, String, ◌str++◌, str_eq, starts_with, Option, none,
  some, or_else, List, [], ◌∷◌, if◌then◌else◌, ◌≡◌, refl,
}
use chaop.Json.{Value, Items, nil, cons, get, as_str}
use chaop.Inventory.Archive.{as_array}
use chaop.Inventory.Title.{is_whitespace, split_whitespace, join_words}
use chaop.Connector.Instances.Text.{take_chars}

unfoldable trim_start : String → String
trim_start String.[] = ""
trim_start (String.◌∷◌ c s) =
    let rest = trim_start s in if is_whitespace c then rest else String.◌∷◌ c s

abbrev put_before : Char → String → String
put_before c String.[] = if is_whitespace c then "" else String.◌∷◌ c ""
put_before c (String.◌∷◌ d s) = String.◌∷◌ c (String.◌∷◌ d s)

unfoldable trim_end : String → String
trim_end String.[] = ""
trim_end (String.◌∷◌ c s) = put_before c (trim_end s)

unfoldable pub trim : String → String
unfolding trim_start trim_end
trim s = trim_end (trim_start s)

abbrev event_text_limit : ℕ
event_text_limit = 260

abbrev cut_event_text : String → Option String
cut_event_text compact =
    if str_eq compact ""
    then none
    else if ltb event_text_limit (count compact)
    then some (take_chars event_text_limit compact str++ "...")
    else some (take_chars event_text_limit compact)

unfoldable pub compact_event_text : Option String → Option String
unfolding split_whitespace join_words take_chars
compact_event_text none = none
compact_event_text (some value) = cut_event_text (join_words (split_whitespace value))

abbrev starts_with_any : List String → String → Bool
starts_with_any [] text = false
starts_with_any (p ∷ ps) text = starts_with text p || starts_with_any ps text

unfoldable pub looks_like_injected_context : String → Bool
unfolding trim_start
looks_like_injected_context text =
    starts_with_any
      ("# AGENTS.md instructions" ∷ "<environment_context>" ∷ "<permissions instructions>"
        ∷ "<apps_instructions>" ∷ "<skills_instructions>" ∷ "<plugins_instructions>" ∷ "<developer"
        ∷ [])
      (trim_start text)

unfoldable without_prefix : String → String → Option String
without_prefix String.[] s = some s
without_prefix (String.◌∷◌ p ps) String.[] = none
without_prefix (String.◌∷◌ p ps) (String.◌∷◌ c s) =
    if code p == code c then without_prefix ps s else none

-- What stands behind the last occurrence of a marker.
unfoldable behind_last : String → String → Option String
unfolding without_prefix
behind_last marker String.[] = without_prefix marker ""
behind_last marker (String.◌∷◌ c s) =
    or_else (behind_last marker s) (without_prefix marker (String.◌∷◌ c s))

-- The latest end leaves the shortest text.
abbrev shorter : Option String → Option String → Option String
shorter none b = b
shorter (some a) none = some a
shorter (some a) (some b) = if leb (count a) (count b) then some a else some b

abbrev after_markers : List String → String → Option String
after_markers [] text = none
after_markers (m ∷ ms) text = shorter (behind_last m text) (after_markers ms text)

abbrev some_text : String → Option String
some_text text = if str_eq text "" then none else some text

abbrev trimmed_rest : Option String → Option String
trimmed_rest none = none
trimmed_rest (some rest) = some_text (trim rest)

unfoldable pub strip_injected_context_prefix : String → Option String
unfolding trim looks_like_injected_context behind_last
strip_injected_context_prefix text =
    let trimmed = trim text in
    if not (looks_like_injected_context trimmed)
    then some trimmed
    else trimmed_rest (
        after_markers
          ("</INSTRUCTIONS>" ∷ "</environment_context>" ∷ "</permissions instructions>"
            ∷ "</collaboration_mode>" ∷ "</apps_instructions>" ∷ "</skills_instructions>"
            ∷ "</plugins_instructions>" ∷ "</developer>" ∷ [])
          trimmed)

abbrev part_text : Value → Option String
part_text part = or_else (as_str (get "text" part)) (as_str (get "input" part))

abbrev said : String → Option String → Option String
said role none = none
said role (some value) =
    if str_eq role "user" then strip_injected_context_prefix value else some (trim value)

abbrev add_part : Option String → List String → List String
add_part none parts = parts
add_part (some text) parts = text ∷ parts

unfoldable message_parts : String → Items → List String
unfolding get strip_injected_context_prefix trim compact_event_text
message_parts role nil = []
message_parts role (cons part rest) =
    add_part (compact_event_text (said role (part_text part))) (message_parts role rest)

abbrev joined : List String → Option String
joined [] = none
joined (p ∷ ps) = some (join_words (p ∷ ps))

abbrev text_of : String → Option Items → Option String
text_of role none = none
text_of role (some content) = joined (message_parts role content)

unfoldable pub message_text : Value → String → Option String
unfolding get message_parts join_words
message_text item role = text_of role (as_array (get "content" item))

-- `strip_suffix('Z')`, `replace('T', " ")` and the first sixteen characters.
unfoldable strip_z : String → String
strip_z String.[] = ""
strip_z (String.◌∷◌ c String.[]) = if code c == 90 then "" else String.◌∷◌ c ""
strip_z (String.◌∷◌ c (String.◌∷◌ d s)) = String.◌∷◌ c (strip_z (String.◌∷◌ d s))

unfoldable spaces_for_t : String → String
spaces_for_t String.[] = ""
spaces_for_t (String.◌∷◌ c s) =
    if code c == 84 then " " str++ spaces_for_t s else String.◌∷◌ c (spaces_for_t s)

unfoldable pub compact_timestamp : String → String
unfolding strip_z spaces_for_t take_chars
compact_timestamp timestamp = take_chars 16 (spaces_for_t (strip_z timestamp))

timestamp_test : compact_timestamp "2024-02-29T12:34:56.000Z" ≡ "2024-02-29 12:34"
unfolding compact_timestamp
timestamp_test = refl

context_test :
    strip_injected_context_prefix "<environment_context>x</environment_context> do it "
    ≡ some "do it"
unfolding strip_injected_context_prefix
context_test = refl
