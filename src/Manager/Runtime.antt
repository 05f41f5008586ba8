-- ===== src/Manager/Runtime.antt =====
-- What the connector calls of the manager: its creation, the runtime configuration, the snapshot of
-- the instance and the count of turns (crates/agent/src/app_server_manager.rs).
use chaop.Base.{
  ℕ, ◌-◌, String, not, ◌&&◌, Option, none, some, if◌then◌else◌, is_some, or_else, ◌>>=◌, ◌>>◌, pure,
  gets, done, saturating_add, u32_max,
}
use chaop.Config.{AgentConfig}
use chaop.Manager.Types.{stopped, as_str, AppServerManager, AppServerInstanceSnapshot}
use chaop.Manager.Host.{Host, State, M, update}
use chaop.Manager.Ready.{probe_ready, ensure_ready, refresh_external_state}
use chaop.Manager.Restart.{schedule_configured_restart_requests, advance_pending_restart}

abbrev pub with_app_server_url : AgentConfig → Option String → AgentConfig
with_app_server_url config url = record config {
  session_inventory = record (config.session_inventory) { app_server_url = url };
}

module _ (host : Host) where
  -- `AppServerManager::new`, given the marker's time of modification.
  unfoldable pub new : AgentConfig → Option ℕ → AppServerManager host.Child
  new config last_upgrade_marker_modified = record {
    enabled = managed.enabled;
    listen_url = or_else managed.listen_url config.session_inventory.app_server_url;
    child = none;
    last_start_failure = none;
    last_external_probe = none;
    state = stopped;
    generation = 0;
    active_turn_count = 0;
    status_summary = none;
    last_error = none;
    pending_restart = none;
    next_scheduled_restart_at = none;
    last_upgrade_marker_modified = last_upgrade_marker_modified;
  }
    where
      open config.session_inventory use {managed_app_server as managed}

  unfoldable pub runtime_app_server_url : AgentConfig → M host (Option String)
  runtime_app_server_url config = do
    schedule_configured_restart_requests host config
    pending ← gets (λ (s : State host). s.manager.pending_restart)
    (if is_some pending then advance_pending_restart host config else ensure_ready host config)

  unfoldable pub active_turn_app_server_url : AgentConfig → M host (Option String)
  active_turn_app_server_url config = do
    schedule_configured_restart_requests host config
    pending ← gets (λ (s : State host). s.manager.pending_restart)
    (if is_some pending
        then advance_pending_restart host config
        else pure config.session_inventory.app_server_url)

  -- An operation that finds the URL runs only where the manager is enabled.
  abbrev pub when_enabled : AgentConfig → M host (Option String) → M host AgentConfig
  when_enabled config find_url = do
    enabled ← gets (λ (s : State host). s.manager.enabled)
    (if not enabled then pure config else do url ← find_url; pure (with_app_server_url config url))

  unfoldable pub runtime_config : AgentConfig → M host AgentConfig
  runtime_config config = when_enabled config (runtime_app_server_url config)

  unfoldable pub runtime_config_without_start : AgentConfig → M host AgentConfig
  runtime_config_without_start config = when_enabled config (probe_ready host config)

  unfoldable pub runtime_config_during_active_turn : AgentConfig → M host AgentConfig
  runtime_config_during_active_turn config = when_enabled config (active_turn_app_server_url config)

  unfoldable pub snapshot_of : AppServerManager host.Child → AppServerInstanceSnapshot
  unfolding as_str
  snapshot_of m = record {
    instance_key = "default";
    scope = "connector";
    endpoint_type = if m.enabled then "managed" else "external";
    state = as_str m.state;
    active_turn_count = m.active_turn_count;
    generation = m.generation;
    status_summary = or_else m.status_summary (
        some (
          if m.enabled
          then "Managed app-server state is available."
          else "External app-server endpoint is configured."));
    last_error = m.last_error;
  }

  unfoldable pub instance_snapshot : AgentConfig → M host (Option AppServerInstanceSnapshot)
  unfolding snapshot_of
  instance_snapshot config = do
    enabled ← gets (λ (s : State host). s.manager.enabled)
    (if not enabled && not (is_some config.session_inventory.app_server_url) then pure none else do
      (if enabled then done else refresh_external_state host config)
      gets (λ (s : State host). some (snapshot_of s.manager)))

  unfoldable pub begin_turn : M host (Unit {0})
  begin_turn =
      update host
        (λ m. record m { active_turn_count = saturating_add u32_max m.active_turn_count 1 })

  unfoldable pub finish_turn : M host (Unit {0})
  finish_turn = update host (λ m. record m { active_turn_count = m.active_turn_count - 1 })
