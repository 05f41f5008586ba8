-- ===== src/Inventory/Rollouts.antt =====
-- What the first lines of a rollout tell of its session (crates/agent/src/session_inventory.rs).
use chaop.Base.{
  ℕ, Bool, true, false, ◌&&◌, is_some_and, String, str_eq, Option, none, some, or_else, List, [],
  ◌∷◌, take, if◌then◌else◌, Result, ok, err,
}
use chaop.Json.{Value, get, as_str}
use chaop.Inventory.Title.{metadata_title, first_non_empty, first_non_empty_raw, max_string}
use chaop.Inventory.Sessions.{
  SessionDraft, Readers, CodexHome, Read, and_read, update_draft, rollout_scan_limit,
}

pub record RolloutMetadata : Type 0 where
  pub session_id : Option String
  pub cwd : Option String
  pub title : Option String
  pub updated_at : Option String

abbrev pub no_metadata : RolloutMetadata
no_metadata = record { session_id = none; cwd = none; title = none; updated_at = none }

abbrev pub rollout_metadata_lines : ℕ
rollout_metadata_lines = 80

abbrev and_get : String → Option Value → Option Value
and_get key none = none
and_get key (some v) = get key v

abbrev with_meta : Option Value → RolloutMetadata → RolloutMetadata
with_meta none m = m
with_meta (some payload) m = record m {
  session_id = or_else (as_str (get "id" payload)) m.session_id;
  cwd = or_else (as_str (get "cwd" payload)) m.cwd;
  title = or_else (metadata_title payload) m.title;
}

abbrev with_context : Option Value → RolloutMetadata → RolloutMetadata
with_context none m = m
with_context (some payload) m = record m { cwd = or_else (as_str (get "cwd" payload)) m.cwd }

abbrev with_kind : Option String → Option Value → RolloutMetadata → RolloutMetadata
with_kind none payload m = m
with_kind (some kind) payload m =
    if str_eq kind "session_meta"
    then with_meta payload m
    else if str_eq kind "turn_context"
    then with_context payload m
    else m

abbrev add_rollout_value : Option Value → RolloutMetadata → RolloutMetadata
add_rollout_value none m = m
add_rollout_value (some value) m =
    with_kind (as_str (get "type" value)) (get "payload" value)
      (record m { updated_at = max_string (as_str (get "timestamp" value)) m.updated_at })

unfoldable pub add_rollout_lines :
    Readers → List (Result String String) → RolloutMetadata → Read RolloutMetadata
unfolding get max_string metadata_title
add_rollout_lines readers [] m = ok m
add_rollout_lines readers (err e ∷ lines) m = err e
add_rollout_lines readers (ok line ∷ lines) m =
    add_rollout_lines readers lines (add_rollout_value (readers.serde.from_str line) m)

abbrev pub with_rollout : RolloutMetadata → SessionDraft → SessionDraft
with_rollout m draft = record draft {
  cwd = first_non_empty_raw m.cwd draft.cwd;
  metadata_title = first_non_empty m.title draft.metadata_title;
  updated_at = max_string m.updated_at draft.updated_at;
}

abbrev pub add_rollout : Option String → RolloutMetadata → List SessionDraft → List SessionDraft
add_rollout none m drafts = drafts
add_rollout (some id) m drafts = update_draft id (with_rollout m) drafts

unfoldable pub read_rollout_metadata :
    Readers
    → Result (List (Result String String)) String
    → List SessionDraft
    → Read (List SessionDraft)
unfolding add_rollout_lines update_draft first_non_empty first_non_empty_raw max_string
read_rollout_metadata readers file drafts = and_read file (λ lines.
    and_read (add_rollout_lines readers (take rollout_metadata_lines lines) no_metadata)
      (λ m. ok (add_rollout m.session_id m drafts)))

unfoldable pub read_rollout_files :
    Readers
    → List (Result (List (Result String String)) String)
    → List SessionDraft
    → Read (List SessionDraft)
unfolding read_rollout_metadata
read_rollout_files readers [] drafts = ok drafts
read_rollout_files readers (file ∷ files) drafts =
    and_read (read_rollout_metadata readers file drafts) (λ ds. read_rollout_files readers files ds)

unfoldable pub read_rollouts :
    Readers → CodexHome → List SessionDraft → ℕ → Read (List SessionDraft)
unfolding read_rollout_files rollout_scan_limit
read_rollouts readers home drafts max_sessions = elim home.rollouts [
  | none ↦ ok drafts
  | some paths ↦
      and_read (paths (rollout_scan_limit max_sessions))
        (λ files. read_rollout_files readers files drafts)
]

-- The rollout of a session, by the lines that open it.
abbrev is_meta_of : String → Option Value → Bool
is_meta_of session_id none = false
is_meta_of session_id (some value) =
    is_some_and (as_str (get "type" value)) (λ kind. str_eq kind "session_meta")
    && is_some_and (as_str (and_get "id" (get "payload" value))) (λ id. str_eq id session_id)

unfoldable pub lines_have_session_id : Readers → String → List (Result String String) → Read Bool
unfolding get
lines_have_session_id readers session_id [] = ok false
lines_have_session_id readers session_id (err e ∷ lines) = err e
lines_have_session_id readers session_id (ok line ∷ lines) =
    let later = lines_have_session_id readers session_id lines in
    if is_meta_of session_id (readers.serde.from_str line) then ok true else later

unfoldable pub rollout_path_has_session_id :
    Readers → String → Result (List (Result String String)) String → Read Bool
unfolding lines_have_session_id
rollout_path_has_session_id readers session_id file =
    and_read file
      (λ lines. lines_have_session_id readers session_id (take rollout_metadata_lines lines))

-- What a session that is resumed has for its working directory.
pub record ResumeCwd : Type 0 where
  pub matched_session : Bool
  pub found_cwd : Option String

abbrev resume_kind : String → Value → Option String → ResumeCwd → ResumeCwd
resume_kind session_id payload none r = r
resume_kind session_id payload (some kind) r =
    let cwd = or_else (as_str (get "cwd" payload)) r.found_cwd in
    if str_eq kind "session_meta"
      && is_some_and (as_str (get "id" payload)) (λ id. str_eq id session_id)
    then record { matched_session = true; found_cwd = cwd }
    else if str_eq kind "turn_context" && r.matched_session
    then record r { found_cwd = cwd }
    else r

abbrev resume_payload : String → Value → Option Value → ResumeCwd → ResumeCwd
resume_payload session_id value none r = r
resume_payload session_id value (some payload) r =
    resume_kind session_id payload (as_str (get "type" value)) r

abbrev resume_value : String → Option Value → ResumeCwd → ResumeCwd
resume_value session_id none r = r
resume_value session_id (some value) r = resume_payload session_id value (get "payload" value) r

unfoldable pub resume_lines :
    Readers → String → List (Result String String) → ResumeCwd → Read (Option String)
unfolding get
resume_lines readers session_id [] r = ok r.found_cwd
resume_lines readers session_id (err e ∷ lines) r = err e
resume_lines readers session_id (ok line ∷ lines) r =
    resume_lines readers session_id lines (resume_value session_id (readers.serde.from_str line) r)

unfoldable pub rollout_resume_cwd :
    Readers → String → Result (List (Result String String)) String → Read (Option String)
unfolding resume_lines
rollout_resume_cwd readers session_id file = and_read file (λ lines.
    resume_lines readers session_id (take rollout_metadata_lines lines)
      (record { matched_session = false; found_cwd = none }))
