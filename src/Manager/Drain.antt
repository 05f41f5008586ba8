-- ===== src/Manager/Drain.antt =====
-- A restart that is requested while turns run (crates/agent/src/app_server_manager.rs).
use chaop.Base.{
  ◌-◌, ◌<◌, ◌≡◌, String, Option, none, some, ok, arith, max, ◌>>=◌, ◌>>◌, pure, gets, done, ◌⊎◌,
  Option-cases,
}
use chaop.Config.{AgentConfig}
use chaop.Manager.Types.{upgrade_marker, PendingAppServerRestart, draining, secs}
use chaop.Manager.Host.{Host, State, now, outside, update}
use chaop.Manager.Process.{set_state, clear_exited_child}
use chaop.Manager.Restart.{
  managed_config, request_restart, schedule_periodic_restart, schedule_upgrade_marker_restart,
  schedule_configured_restart_requests, drain_expired, scheduled_restart_backoff_deadline,
  advance_at, advance_pending_restart,
}

module _ (host : Host) where
  -- The world in which the drain timeout is read, when the child `c` is found running.
  abbrev pub after_look : host.Child → host.World → host.World
  after_look c w = host.read_clock (host.try_wait c w).1

  -- While turns run, the child runs and the drain timeout has not passed, a pending restart hands
  -- out no URL, stops nothing and stays pending, and the instance is draining.
  pub advance_drains :
      (config : AgentConfig) (s : State host) (c : host.Child) (pending : PendingAppServerRestart)
      → s.manager.pending_restart ≡ some pending
      → s.manager.child ≡ some c
      → (host.try_wait c s.world).0 ≡ ok none
      → 0 < s.manager.active_turn_count
      → host.clock (after_look c s.world) - pending.requested_at
        < secs (max (managed_config host config).drain_timeout_seconds 1)
      → let r = advance_pending_restart host config s in
        (r.0 ≡ none)
        × (r.1.manager.child ≡ some c)
        × (r.1.manager.pending_restart ≡ some pending)
        × (r.1.manager.state ≡ draining)
        × (r.1.world ≡ after_look c s.world)
  unfolding advance_pending_restart clear_exited_child drain_expired advance_at set_state update
      scheduled_restart_backoff_deadline outside now gets pure done ◌>>=◌ ◌>>◌
  advance_drains config s c pending e child running busy early = ground arith

  -- A pending upgrade restart is not lost or put off by the requests that the configuration makes:
  -- it keeps its time, and neither the child nor the state changes.
  pub schedule_keeps_upgrade :
      (config : AgentConfig) (s : State host) (pending : PendingAppServerRestart)
      → s.manager.pending_restart ≡ some pending
      → pending.reason ≡ upgrade_marker
      → let m = (schedule_configured_restart_requests host config s).1.manager in
        (m.pending_restart ≡ some pending)
        × (m.child ≡ s.manager.child)
        × (m.state ≡ s.manager.state)
        × (m.generation ≡ s.manager.generation)
  unfolding schedule_configured_restart_requests schedule_periodic_restart
      schedule_upgrade_marker_restart request_restart set_state update outside now gets pure done
      ◌>>=◌ ◌>>◌
  schedule_keeps_upgrade config s pending e upgrade =
      ground (arith, marker config.session_inventory.managed_app_server.upgrade_marker_file)
    where
      marker : (path : Option String) → (path ≡ none) ⊎ ((p : String) × (path ≡ some p))
      marker = Option-cases
