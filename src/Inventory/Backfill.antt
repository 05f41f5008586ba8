-- ===== src/Inventory/Backfill.antt =====
-- The backfill of a session's events from its rollout or from the history
-- (crates/agent/src/session_inventory.rs). The files are arguments: their bytes, or the errors of
-- opening and reading them.
pub mod Complete
use chaop.Base.{
  ℕ, zero, suc, ◌+◌, ◌-◌, ◌*◌, min, max, ltb, ◌==◌, Bool, true, false, not, ◌&&◌, ◌||◌, String,
  ◌str++◌, str_eq, Option, none, some, unwrap_or, List, [], ◌∷◌, length, take, drop, if◌then◌else◌,
  Result, ok, err,
}
use chaop.Json.{Value, get, as_str}
use chaop.Config.{SessionInventoryConfig}
use chaop.Inventory.Rollouts.{rollout_path_has_session_id}
use chaop.Inventory.Calendar.{unix_seconds_to_iso}
use chaop.Inventory.Sessions.{
  Readers, HistoryLine, Read, and_read, metadata_scan_limit, rollout_scan_limit, and_iso,
}
use chaop.Inventory.RecentLines.{read_recent_lines, keep_last}
use chaop.Inventory.EventText.{compact_event_text, compact_timestamp, message_text}
use chaop.Inventory.Hash.{stable_hash}

pub record AgentBackfillEvent : Type 0 where
  pub kind : String
  pub priority : String
  pub summary : String
  pub idempotency_key : String
  pub created_at : String

pub record HostSessionBackfill : Type 0 where
  pub events : List AgentBackfillEvent
  pub truncated : Bool

unfoldable pub rollout_backfill_line_scan_limit : ℕ → ℕ
rollout_backfill_line_scan_limit event_limit = min (max (event_limit * 20) 200) 2000

abbrev unknown_backfill_created_at : String
unknown_backfill_created_at = "1970-01-01T00:00:00.000Z"

abbrev is_str : Option String → String → Bool
is_str none expected = false
is_str (some s) expected = str_eq s expected

abbrev and_get : String → Option Value → Option Value
and_get key none = none
and_get key (some v) = get key v

abbrev labelled : String → String → Option String → Option String
labelled time label none = none
labelled time label (some text) =
    some (compact_timestamp time str++ (" - " str++ (label str++ (": " str++ text))))

abbrev message_summary : String → Value → Option String → Option String
message_summary time item none = none
message_summary time item (some role) =
    if str_eq role "user"
    then labelled time "User" (message_text item role)
    else if str_eq role "assistant"
    then labelled time "Assistant" (message_text item role)
    else none

abbrev item_summary : String → Value → String → Option String
item_summary time item item_type =
    if str_eq item_type "message"
    then message_summary time item (as_str (get "role" item))
    else if str_eq item_type "function_call"
    then some (
        compact_timestamp time
        str++ (" - Tool call: " str++ unwrap_or (as_str (get "name" item)) "tool"))
    else none

abbrev backfill_event : String → Option String → String → AgentBackfillEvent
backfill_event key created_at summary = record {
  kind = "command.output";
  priority = "P3";
  summary = summary;
  idempotency_key = key;
  created_at = unwrap_or created_at unknown_backfill_created_at;
}

abbrev event_of : String → Option String → Option String → Option AgentBackfillEvent
event_of key created_at none = none
event_of key created_at (some summary) = some (backfill_event key created_at summary)

abbrev rollout_key : String → String → String → String → String
rollout_key session_id time item_type record_hash =
    "rollout:"
    str++ (session_id
        str++ (":" str++ (time str++ (":" str++ (item_type str++ (":" str++ record_hash))))))

abbrev item_event :
    String → String → Option String → Value → Option String → Option AgentBackfillEvent
item_event session_id record_hash created_at item none = none
item_event session_id record_hash created_at item (some item_type) =
    let time = unwrap_or created_at "unknown time" in
    event_of (rollout_key session_id time item_type record_hash) created_at
      (item_summary time item item_type)

abbrev payload_event : String → String → Option String → Option Value → Option AgentBackfillEvent
payload_event session_id record_hash created_at none = none
payload_event session_id record_hash created_at (some item) =
    item_event session_id record_hash created_at item (as_str (get "type" item))

unfoldable pub backfill_event_from_rollout_record :
    String → Value → String → Option AgentBackfillEvent
unfolding get message_text compact_timestamp
backfill_event_from_rollout_record session_id value record_hash =
    if is_str (as_str (get "type" value)) "response_item"
    then payload_event session_id record_hash (as_str (get "timestamp" value)) (get "payload" value)
    else none

abbrev and_event : Readers → String → String → Option Value → Option AgentBackfillEvent
and_event readers session_id line none = none
and_event readers session_id line (some value) =
    backfill_event_from_rollout_record session_id value (stable_hash line)

abbrev push_event : Option AgentBackfillEvent → List AgentBackfillEvent → List AgentBackfillEvent
push_event none events = events
push_event (some e) events = e ∷ events

unfoldable pub rollout_events : Readers → String → List String → List AgentBackfillEvent
unfolding backfill_event_from_rollout_record stable_hash
rollout_events readers session_id [] = []
rollout_events readers session_id (line ∷ lines) =
    push_event (and_event readers session_id line (readers.serde.from_str line))
      (rollout_events readers session_id lines)

-- The events behind those that are drained, and whether there were more.
unfoldable pub finish_rollout : ℕ → Bool → List AgentBackfillEvent → HostSessionBackfill
finish_rollout limit reached_scan_limit events = record {
  events = keep_last limit events;
  truncated = ltb limit (length events) || reached_scan_limit;
}

unfoldable pub read_rollout_backfill :
    Readers → (List ℕ → String) → Read (List ℕ) → String → ℕ → Read HostSessionBackfill
unfolding read_recent_lines rollout_events finish_rollout rollout_backfill_line_scan_limit
read_rollout_backfill readers decode file session_id limit =
    let scan_limit = rollout_backfill_line_scan_limit limit in
    and_read (read_recent_lines decode file scan_limit) (λ lines.
      ok (
        finish_rollout limit (length lines == scan_limit)
          (rollout_events readers session_id lines)))

abbrev history_key : String → String → String → String
history_key session_id time text =
    "history:" str++ (session_id str++ (":" str++ (time str++ (":" str++ stable_hash text))))

abbrev text_event : String → Option String → Option String → Option AgentBackfillEvent
text_event session_id created_at none = none
text_event session_id created_at (some text) =
    let time = unwrap_or created_at "unknown time" in
    some (
      backfill_event (history_key session_id time text) created_at
        (compact_timestamp time str++ (" - User: " str++ text)))

abbrev entry_event : String → Option HistoryLine → Option AgentBackfillEvent
entry_event session_id none = none
entry_event session_id (some entry) =
    if str_eq entry.session_id session_id
    then text_event session_id (and_iso entry.ts) (compact_event_text entry.text)
    else none

unfoldable pub history_events : Readers → String → List String → List AgentBackfillEvent
unfolding unix_seconds_to_iso compact_event_text compact_timestamp stable_hash
history_events readers session_id [] = []
history_events readers session_id (line ∷ lines) =
    push_event (entry_event session_id (readers.history_line line))
      (history_events readers session_id lines)

unfoldable pub read_history_backfill :
    Readers → (List ℕ → String) → Option (Read (List ℕ)) → String → ℕ → ℕ → Read HostSessionBackfill
unfolding read_recent_lines history_events finish_rollout metadata_scan_limit
read_history_backfill readers decode history session_id limit max_sessions = elim history [
  | none ↦ ok (record { events = []; truncated = false })
  | some file ↦
      and_read (read_recent_lines decode file (metadata_scan_limit max_sessions))
        (λ lines. ok (finish_rollout limit false (history_events readers session_id lines)))
]

-- A rollout that is found: its first lines, as they are read one by one, and its bytes.
pub record RolloutFile : Type 0 where
  pub opened : Read (List (Result String String))
  pub bytes : Read (List ℕ)

unfoldable pub find_rollout : Readers → String → List RolloutFile → Read (Option RolloutFile)
unfolding rollout_path_has_session_id
find_rollout readers session_id [] = ok none
find_rollout readers session_id (file ∷ files) =
    let later = find_rollout readers session_id files in
    and_read (rollout_path_has_session_id readers session_id file.opened)
      (λ found. if found then ok (some file) else later)

unfoldable pub find_rollout_path :
    Readers → Option (ℕ → Read (List RolloutFile)) → String → ℕ → Read (Option RolloutFile)
unfolding find_rollout rollout_scan_limit
find_rollout_path readers rollouts session_id max_sessions = elim rollouts [
  | none ↦ ok none
  | some paths ↦
      and_read (paths (max (rollout_scan_limit max_sessions) 1000))
        (λ files. find_rollout readers session_id files)
]

abbrev backfill_of :
    Readers
    → (List ℕ → String)
    → Option (Read (List ℕ))
    → String
    → ℕ
    → ℕ
    → Option RolloutFile
    → Read HostSessionBackfill
backfill_of readers decode history session_id limit max_sessions none =
    read_history_backfill readers decode history session_id limit max_sessions
backfill_of readers decode history session_id limit max_sessions (some file) =
    read_rollout_backfill readers decode file.bytes session_id limit

abbrev pub event_limit : ℕ → ℕ
event_limit limit = min (max limit 1) 80

unfoldable pub build_host_session_backfill :
    Readers
    → (List ℕ → String)
    → Option (ℕ → Read (List RolloutFile))
    → Option (Read (List ℕ))
    → SessionInventoryConfig
    → String
    → ℕ
    → Read HostSessionBackfill
unfolding find_rollout_path read_rollout_backfill read_history_backfill
build_host_session_backfill readers decode rollouts history config session_id limit =
    if config.enabled
    then and_read (find_rollout_path readers rollouts session_id config.max_sessions)
        (backfill_of readers decode history session_id (event_limit limit) config.max_sessions)
    else err "session inventory is disabled"
