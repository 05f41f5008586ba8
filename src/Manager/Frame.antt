-- ===== src/Manager/Frame.antt =====
-- Every operation of the manager (crates/agent/src/app_server_manager.rs) is made of calls to the
-- world, of `set_state` and of updates of the bookkeeping fields; so a relation that these keep is
-- kept by all. The children show it operation by operation.
pub mod Process
pub mod Ready
pub mod Restart
pub mod Runtime
use chaop.Base.{
  ℕ, zero, suc, ◌+◌, ◌/◌, ◌≡◌, refl, String, Bool, true, false, Option, none, some, Result, ok, err,
  Preorder, Keeps, pure-Keeps, done-Keeps, gets-Keeps, bind-Keeps, then-Keeps, if-Keeps,
}
use chaop.Config.{AgentConfig}
use chaop.Manager.Types.{
  secs, millis, AppServerInstanceState, AppServerRestartReason, PendingAppServerRestart,
  AppServerManager,
}
use chaop.Manager.Host.{Host, IoError, Signal, Command, State, M, now, outside, update}
use chaop.Manager.Process.{
  set_state, signal_process_group, wait_for_child_exit_loop, wait_for_child_exit,
  kill_remaining_group, terminate_child, and_then, stop_child_checked, stop_child,
  record_start_failure, clear_exited_child, can_attempt_start, spawn_attempts, spawn_app_server,
}
use chaop.Manager.Ready.{
  health_check_with_auth, probe_ready, nap, healthy_in_time, ready_round, wait_until_ready_loop,
  wait_until_ready, become_healthy, start_child, replace_child, recover, ensure_ready,
  refresh_external_state,
}
use chaop.Manager.Restart.{
  request_restart, schedule_periodic_restart, upgrade_marker_modified,
  schedule_upgrade_marker_restart, schedule_configured_restart_requests, arm_next_scheduled_restart,
  scheduled_restart_backoff_deadline, block_unowned_listener_restart, record_forced_restart_result,
  perform_restart, drain_expired, advance_at, advance_pending_restart,
}
use chaop.Manager.Runtime.{
  runtime_app_server_url, active_turn_app_server_url, runtime_config, runtime_config_without_start,
  runtime_config_during_active_turn, instance_snapshot,
}

-- An update of the bookkeeping fields leaves these five alone.
abbrev pub Quiet : {C : Type 0} → AppServerManager C → AppServerManager C → Type 0
Quiet m n =
    (n.generation ≡ m.generation)
    × (n.state ≡ m.state)
    × (n.enabled ≡ m.enabled)
    × (n.listen_url ≡ m.listen_url)
    × (n.active_turn_count ≡ m.active_turn_count)

-- The calls of the world that the operations make, but for the clock's.
pub data IsCall (host : Host) : (A : Type 0) → (host.World → A × host.World) → Type 1 where
  sleeps : (d : ℕ) → IsCall host (Unit {0}) (λ w. (tt, host.sleep d w))
  checks :
      (url : String) (timeout : ℕ) (token : Option String)
      → IsCall host (Result (Unit {0}) String) (host.health_check url timeout token)
  try_waits :
      (child : host.Child) → IsCall host (Result (Option String) IoError) (host.try_wait child)
  waits : (child : host.Child) → IsCall host (Result (Unit {0}) IoError) (host.wait child)
  kills : (child : host.Child) → IsCall host (Unit {0}) (λ w. (tt, host.kill child w))
  signals :
      (child : host.Child) (signal : Signal)
      → IsCall host (Result (Unit {0}) IoError) (host.kill_group child signal)
  spawns : (command : Command) → IsCall host (Result host.Child IoError) (host.spawn command)
  stats : (path : String) → IsCall host (Option ℕ) (host.modified path)

pub record IsFrame (host : Host) (R : Preorder (State host)) : Type 1 where
  pub of_outside :
      {A : Type 0} (f : host.World → A × host.World) → IsCall host A f → Keeps R (outside host f)
  pub of_now : Keeps R (now host)
  pub of_set_state :
      (state : AppServerInstanceState) (summary : String) (error : Option String)
      → Keeps R (set_state host state summary error)
  pub of_update :
      (f : AppServerManager host.Child → AppServerManager host.Child)
      → ((m : AppServerManager host.Child) → Quiet m (f m))
      → Keeps R (update host f)
