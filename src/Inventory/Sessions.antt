-- ===== src/Inventory/Sessions.antt =====
-- The sessions of a host as its files and its app-server tell of them
-- (crates/agent/src/session_inventory.rs). The map of the drafts is a list of them, one for each
-- session id. Parameters: the files of the Codex home, with the errors of reading them, and the
-- readers of a line, which `serde` derives.
use chaop.Base.{
  ℕ, ◌*◌, min, max, Bool, false, String, str_eq, Option, none, some, List, [], ◌∷◌, if◌then◌else◌,
  Result, ok, err, ℤ,
}
use chaop.Json.{Serde}
use chaop.Inventory.Calendar.{unix_seconds_to_iso}
use chaop.Inventory.Title.{compact_title, first_non_empty, max_string}

pub record SessionDraft : Type 0 where
  pub session_id : String
  pub metadata_title : Option String
  pub app_server_present : Bool
  pub cwd : Option String
  pub updated_at : Option String

pub record SessionIndexLine : Type 0 where
  pub id : String
  pub thread_name : Option String
  pub updated_at : Option String

pub record HistoryLine : Type 0 where
  pub session_id : String
  pub text : Option String
  pub ts : Option ℤ

pub record HistorySession : Type 0 where
  pub session_id : String
  pub title : String
  pub updated_at : Option String

pub record AppServerSession : Type 0 where
  pub session_id : String
  pub name : Option String
  pub cwd : Option String
  pub updated_at : Option String

-- A file that exists is read, which may fail; the lines of an opened rollout fail one by one.
pub record CodexHome : Type 0 where
  pub session_index : Option (ℕ → Result (List String) String)
  pub history : Option (ℕ → Result (List String) String)
  pub rollouts : Option (ℕ → Result (List (Result (List (Result String String)) String)) String)

pub record Readers : Type 0 where
  pub serde : Serde
  pub index_line : String → Option SessionIndexLine
  pub history_line : String → Option HistoryLine
  pub number_floor : String → Option ℤ

abbrev pub Read {ℓ} : Type ℓ → Type ℓ
Read A = Result A String

abbrev pub and_read {ℓ κ} : {A : Type ℓ} {B : Type κ} → Read A → (A → Read B) → Read B
and_read (ok a) f = f a
and_read (err e) f = err e

abbrev clamp : ℕ → ℕ → ℕ → ℕ
clamp n low high = min (max n low) high

-- The products saturate at a bound far above the limits that follow.
unfoldable pub rollout_scan_limit : ℕ → ℕ
rollout_scan_limit max_sessions = clamp (max_sessions * 3) 50 500

unfoldable pub metadata_scan_limit : ℕ → ℕ
metadata_scan_limit max_sessions = clamp (max_sessions * 5) 50 1000

abbrev pub new_draft : String → SessionDraft
new_draft id = record {
  session_id = id;
  metadata_title = none;
  app_server_present = false;
  cwd = none;
  updated_at = none;
}

-- `drafts.entry(id).or_insert_with(…)`, and the change that follows.
unfoldable pub update_draft :
    String → (SessionDraft → SessionDraft) → List SessionDraft → List SessionDraft
update_draft id change [] = change (new_draft id) ∷ []
update_draft id change (d ∷ ds) =
    if str_eq d.session_id id then change d ∷ ds else d ∷ update_draft id change ds

abbrev pub with_index : SessionIndexLine → SessionDraft → SessionDraft
with_index entry draft = record draft {
  metadata_title = first_non_empty entry.thread_name draft.metadata_title;
  updated_at = max_string entry.updated_at draft.updated_at;
}

abbrev add_index_line : Option SessionIndexLine → List SessionDraft → List SessionDraft
add_index_line none drafts = drafts
add_index_line (some entry) drafts = update_draft entry.id (with_index entry) drafts

unfoldable pub add_index_lines : Readers → List String → List SessionDraft → List SessionDraft
unfolding update_draft first_non_empty max_string
add_index_lines readers [] drafts = drafts
add_index_lines readers (line ∷ lines) drafts =
    add_index_lines readers lines (add_index_line (readers.index_line line) drafts)

unfoldable pub read_session_index :
    Readers → CodexHome → List SessionDraft → ℕ → Read (List SessionDraft)
unfolding add_index_lines metadata_scan_limit
read_session_index readers home drafts max_sessions = elim home.session_index [
  | none ↦ ok drafts
  | some read ↦
      and_read (read (metadata_scan_limit max_sessions))
        (λ lines. ok (add_index_lines readers lines drafts))
]

-- The history's sessions; a line about a known session changes its time only.
unfoldable pub find_history : String → List HistorySession → Option HistorySession
find_history id [] = none
find_history id (h ∷ hs) = if str_eq h.session_id id then some h else find_history id hs

unfoldable touch_history : String → Option String → List HistorySession → List HistorySession
unfolding max_string
touch_history id time [] = []
touch_history id time (h ∷ hs) =
    if str_eq h.session_id id
    then record h { updated_at = max_string time h.updated_at } ∷ hs
    else h ∷ touch_history id time hs

abbrev pub and_iso : Option ℤ → Option String
and_iso none = none
and_iso (some seconds) = unix_seconds_to_iso seconds

abbrev insert_history :
    HistoryLine → Option HistorySession → Option String → List HistorySession → List HistorySession
insert_history entry (some existing) title sessions =
    touch_history entry.session_id (and_iso entry.ts) sessions
insert_history entry none (some title) sessions =
    record { session_id = entry.session_id; title = title; updated_at = and_iso entry.ts }
    ∷ sessions
insert_history entry none none sessions = sessions

abbrev add_history_line : Option HistoryLine → List HistorySession → List HistorySession
add_history_line none sessions = sessions
add_history_line (some entry) sessions =
    insert_history entry (find_history entry.session_id sessions) (compact_title entry.text)
      sessions

unfoldable pub add_history_lines : Readers → List String → List HistorySession → List HistorySession
unfolding find_history touch_history compact_title unix_seconds_to_iso
add_history_lines readers [] sessions = sessions
add_history_lines readers (line ∷ lines) sessions =
    add_history_lines readers lines (add_history_line (readers.history_line line) sessions)

unfoldable pub read_history_sessions : Readers → CodexHome → ℕ → Read (List HistorySession)
unfolding add_history_lines metadata_scan_limit
read_history_sessions readers home max_sessions = elim home.history [
  | none ↦ ok []
  | some read ↦
      and_read (read (metadata_scan_limit max_sessions))
        (λ lines. ok (add_history_lines readers lines []))
]
