-- ===== src/Manager/Types.antt =====
-- The states, the restart reasons and the record of the manager, with their texts
-- (crates/agent/src/app_server_manager.rs). The two function pointers of the record are the
-- functions of the module `Process`; an `Instant` is a count of nanoseconds.
use chaop.Base.{ℕ, ◌*◌, String, Bool, true, false, Option}

pub data AppServerInstanceState : Type 0 where
  healthy degraded draining restarting stopped : AppServerInstanceState

unfoldable pub as_str : AppServerInstanceState → String
as_str healthy = "healthy"
as_str degraded = "degraded"
as_str draining = "draining"
as_str restarting = "restarting"
as_str stopped = "stopped"

abbrev pub same_state : AppServerInstanceState → AppServerInstanceState → Bool
same_state healthy healthy = true
same_state degraded degraded = true
same_state draining draining = true
same_state restarting restarting = true
same_state stopped stopped = true
same_state _ _ = false

pub data AppServerRestartReason : Type 0 where
  scheduled upgrade_marker : AppServerRestartReason

pub record PendingAppServerRestart : Type 0 where
  pub reason : AppServerRestartReason
  pub requested_at : ℕ

pub record AppServerManager (Child : Type 0) : Type 0 where
  pub enabled : Bool
  pub listen_url : Option String
  pub child : Option Child
  pub last_start_failure : Option ℕ
  pub last_external_probe : Option ℕ
  pub state : AppServerInstanceState
  pub generation : ℕ  -- u64
  pub active_turn_count : ℕ  -- u32
  pub status_summary : Option String
  pub last_error : Option String
  pub pending_restart : Option PendingAppServerRestart
  pub next_scheduled_restart_at : Option ℕ
  pub last_upgrade_marker_modified : Option ℕ

pub record AppServerInstanceSnapshot : Type 0 where
  pub instance_key : String
  pub scope : String
  pub endpoint_type : String
  pub state : String
  pub active_turn_count : ℕ
  pub generation : ℕ
  pub status_summary : Option String
  pub last_error : Option String

abbrev pub secs : ℕ → ℕ
secs n = n * 1000000000

abbrev pub millis : ℕ → ℕ
millis n = n * 1000000

abbrev pub app_server_spawn_attempts : ℕ
app_server_spawn_attempts = 3

abbrev pub app_server_spawn_retry_delay : ℕ
app_server_spawn_retry_delay = millis 20

abbrev pub app_server_external_probe_interval : ℕ
app_server_external_probe_interval = secs 30

abbrev pub app_server_drain_timeout_detail : String
app_server_drain_timeout_detail = "Drain timeout elapsed while active turns were still running."

unfoldable pub draining_summary : AppServerRestartReason → String
draining_summary scheduled = "Managed app-server scheduled restart is draining active turns."
draining_summary upgrade_marker = "Managed app-server upgrade restart is draining active turns."

unfoldable pub restarting_summary : AppServerRestartReason → Bool → String
restarting_summary scheduled false = "Managed app-server scheduled restart is in progress."
restarting_summary scheduled true =
    "Managed app-server scheduled restart is forcing after drain timeout."
restarting_summary upgrade_marker false = "Managed app-server upgrade restart is in progress."
restarting_summary upgrade_marker true =
    "Managed app-server upgrade restart is forcing after drain timeout."

unfoldable pub forced_healthy_summary : AppServerRestartReason → String
forced_healthy_summary scheduled =
    "Managed app-server scheduled restart forced after drain timeout and is healthy."
forced_healthy_summary upgrade_marker =
    "Managed app-server upgrade restart forced after drain timeout and is healthy."

unfoldable pub forced_degraded_summary : AppServerRestartReason → String
forced_degraded_summary scheduled =
    "Managed app-server scheduled restart forced after drain timeout and did not become healthy."
forced_degraded_summary upgrade_marker =
    "Managed app-server upgrade restart forced after drain timeout and did not become healthy."

unfoldable pub unowned_listener_summary : AppServerRestartReason → String
unowned_listener_summary scheduled =
    "Managed app-server scheduled restart is blocked by an unowned listener."
unowned_listener_summary upgrade_marker =
    "Managed app-server upgrade restart is blocked by an unowned listener."

abbrev pub is_scheduled : AppServerRestartReason → Bool
is_scheduled scheduled = true
is_scheduled upgrade_marker = false

abbrev pub overrides_start_backoff : AppServerRestartReason → Bool
overrides_start_backoff upgrade_marker = true
overrides_start_backoff scheduled = false

abbrev pub supersedes : AppServerRestartReason → AppServerRestartReason → Bool
supersedes upgrade_marker scheduled = true
supersedes _ _ = false
