-- ===== src/Inventory/Report.antt =====
-- The report of the host's sessions (crates/agent/src/session_inventory.rs): its drafts are those of
-- the files and of the app-server, whose inventory is a parameter, or its failure.
pub mod Drafts
pub mod Presence
pub mod Order
pub mod Laws
use chaop.Base.{
  ℕ, ltb, Bool, true, false, ◌&&◌, ◌||◌, String, ◌str++◌, str_eq, text_lt, Option, none, some, List,
  [], ◌∷◌, map, length, take, sort_by, insert_by, if◌then◌else◌, Result, ok, err, unwrap_or,
}
use chaop.Config.{SessionInventoryConfig}
use chaop.Inventory.Title.{
  compact_title, first_non_empty_raw, max_string, file_name, short_session_id,
}
use chaop.Inventory.Sessions.{
  SessionDraft, HistorySession, AppServerSession, Readers, CodexHome, Read, and_read, update_draft,
  find_history, read_session_index, read_history_sessions,
}
use chaop.Inventory.Rollouts.{read_rollouts}

pub data TitleSource : Type 0 where
  metadata app_server history fallback : TitleSource

pub data InventoryScope : Type 0 where
  full incremental : InventoryScope

pub record AgentHostSession : Type 0 where
  pub session_id : String
  pub title : String
  pub title_source : TitleSource
  pub app_server_present : Bool
  pub cwd : Option String
  pub updated_at : String

pub record AgentHostSessionsReport : Type 0 where
  pub sessions : List AgentHostSession
  pub inventory_scope : InventoryScope
  pub app_server_inventory_ok : Option Bool

pub record AppServerSessionInventory : Type 0 where
  pub sessions : List AppServerSession
  pub truncated : Bool

abbrev and_file_name : Option String → Option String
and_file_name none = none
and_file_name (some cwd) = file_name cwd

abbrev titled_by : Option String → String → String
titled_by none id = "Codex session " str++ id
titled_by (some cwd) id = cwd str++ (" (" str++ (id str++ ")"))

unfoldable pub fallback_title : SessionDraft → String
unfolding file_name short_session_id
fallback_title draft = titled_by (and_file_name draft.cwd) (short_session_id draft.session_id)

abbrev title_of : Option HistorySession → Option String
title_of none = none
title_of (some h) = some h.title

-- The first of the titles that there is.
abbrev choose_title : Option String → Option String → Option String → String → String × TitleSource
choose_title (some title) app told last = (title, TitleSource.metadata)
choose_title none (some title) told last = (title, TitleSource.app_server)
choose_title none none (some title) last = (title, TitleSource.history)
choose_title none none none last = (last, TitleSource.fallback)

abbrev epoch_text : String
epoch_text = "1970-01-01T00:00:00.000Z"

unfoldable pub resolve_session :
    SessionDraft → Option String → List HistorySession → AgentHostSession
unfolding compact_title find_history fallback_title
resolve_session draft app_server_title history_sessions =
    let chosen =
      choose_title (compact_title draft.metadata_title) (compact_title app_server_title)
        (compact_title (title_of (find_history draft.session_id history_sessions)))
        (fallback_title draft) in
    record {
      session_id = draft.session_id;
      title = chosen.0;
      title_source = chosen.1;
      app_server_present = draft.app_server_present;
      cwd = draft.cwd;
      updated_at = unwrap_or draft.updated_at epoch_text;
    }

abbrev pub with_app_session : AppServerSession → SessionDraft → SessionDraft
with_app_session s draft = record draft {
  cwd = first_non_empty_raw draft.cwd s.cwd;
  app_server_present = true;
  updated_at = max_string s.updated_at draft.updated_at;
}

unfoldable pub add_app_sessions : List AppServerSession → List SessionDraft → List SessionDraft
unfolding update_draft first_non_empty_raw max_string
add_app_sessions [] drafts = drafts
add_app_sessions (s ∷ rest) drafts =
    add_app_sessions rest (update_draft s.session_id (with_app_session s) drafts)

abbrev pub with_history : HistorySession → SessionDraft → SessionDraft
with_history h draft = record draft { updated_at = max_string h.updated_at draft.updated_at }

unfoldable pub add_history_sessions : List HistorySession → List SessionDraft → List SessionDraft
unfolding update_draft max_string
add_history_sessions [] drafts = drafts
add_history_sessions (h ∷ rest) drafts =
    add_history_sessions rest (update_draft h.session_id (with_history h) drafts)

unfoldable pub app_title : String → List AppServerSession → Option String
app_title id [] = none
app_title id (s ∷ rest) = if str_eq s.session_id id then s.name else app_title id rest

unfoldable pub resolve_sessions :
    List AppServerSession → List HistorySession → List SessionDraft → List AgentHostSession
unfolding resolve_session app_title
resolve_sessions app_sessions told [] = []
resolve_sessions app_sessions told (d ∷ ds) =
    resolve_session d (app_title d.session_id app_sessions) told
    ∷ resolve_sessions app_sessions told ds

-- The latest session first, and those of one time by their ids.
unfoldable pub comes_before : AgentHostSession → AgentHostSession → Bool
comes_before left right =
    text_lt right.updated_at left.updated_at
    || (str_eq left.updated_at right.updated_at && text_lt left.session_id right.session_id)

-- What the load of the app-server's inventory comes to: without a URL there is none, and after a
-- failure an empty one.
abbrev pub loaded :
    Option String → Read AppServerSessionInventory → AppServerSessionInventory × Option Bool
loaded none answer = (record { sessions = []; truncated = false }, none)
loaded (some url) (ok inventory) = (inventory, some true)
loaded (some url) (err e) = (record { sessions = []; truncated = false }, some false)

unfoldable pub finish_report :
    ℕ
    → AppServerSessionInventory
    → Option Bool
    → List HistorySession
    → List SessionDraft
    → AgentHostSessionsReport
unfolding add_app_sessions add_history_sessions resolve_sessions comes_before
finish_report max_sessions inventory inventory_ok told drafts =
    let sessions = sort_by comes_before (
      resolve_sessions inventory.sessions told
        (add_history_sessions told (add_app_sessions inventory.sessions drafts))) in
    record {
      sessions = take max_sessions sessions;
      inventory_scope =
          if inventory.truncated || ltb max_sessions (length sessions)
          then InventoryScope.incremental
          else InventoryScope.full;
      app_server_inventory_ok = inventory_ok;
    }

-- The report of an inventory that is enabled.
unfoldable pub enabled_report :
    Readers
    → CodexHome
    → (String → Read AppServerSessionInventory)
    → SessionInventoryConfig
    → Read AgentHostSessionsReport
unfolding read_session_index read_rollouts read_history_sessions finish_report
enabled_report readers home load config =
    let n = config.max_sessions in
    let answer = loaded config.app_server_url (load (unwrap_or config.app_server_url "")) in
    and_read (read_session_index readers home [] n) (λ indexed.
      and_read (read_rollouts readers home indexed n) (λ drafts.
        and_read (read_history_sessions readers home n)
          (λ told. ok (finish_report n answer.0 answer.1 told drafts))))

abbrev pub disabled_report : AgentHostSessionsReport
disabled_report = record {
  sessions = [];
  inventory_scope = InventoryScope.incremental;
  app_server_inventory_ok = none;
}

unfoldable pub build_host_sessions_report :
    Readers
    → CodexHome
    → (String → Read AppServerSessionInventory)
    → SessionInventoryConfig
    → Read AgentHostSessionsReport
unfolding enabled_report
build_host_sessions_report readers home load config =
    if config.enabled then enabled_report readers home load config else ok disabled_report
