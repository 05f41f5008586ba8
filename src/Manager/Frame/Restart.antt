-- ===== src/Manager/Frame/Restart.antt =====
-- The restart requests, the restart and what the connector calls
-- (crates/agent/src/app_server_manager.rs) keep a frame.
use chaop.Base.{
  ℕ, refl, String, Bool, Option, none, some, ok, err, Preorder, Keeps, pure-Keeps, done-Keeps,
  gets-Keeps, bind-Keeps, then-Keeps, if-Keeps, option-Keeps,
}
use chaop.Config.{AgentConfig}
use chaop.Manager.Types.{AppServerRestartReason, scheduled, upgrade_marker, PendingAppServerRestart}
use chaop.Manager.Host.{Host, State}
use chaop.Manager.Process.{start_backoff_deadline}
use chaop.Manager.Restart.{
  managed_config, request_restart, schedule_periodic_restart, upgrade_marker_modified,
  schedule_upgrade_marker_restart, schedule_configured_restart_requests, arm_next_scheduled_restart,
  scheduled_restart_backoff_deadline, block_unowned_listener_restart, record_forced_restart_result,
  perform_restart, drain_expired, advance_at, advance_pending_restart,
}
use chaop.Manager.Frame.{IsFrame, stats}
use chaop.Manager.Frame.Process.{stop_checked-Keeps, clear-Keeps}
use chaop.Manager.Frame.Ready.{probe-Keeps, ensure-Keeps}

module _ (host : Host) (R : Preorder (State host)) (frame : IsFrame host R) where
  open frame use {of_outside, of_now, of_set_state, of_update}

  request-Keeps : (reason : AppServerRestartReason) → Keeps R (request_restart host reason)
  unfolding request_restart
  request-Keeps reason = bind-Keeps (gets-Keeps _) (λ m. if-Keeps _ done-Keeps (
      bind-Keeps of_now (λ t.
        then-Keeps (of_update _ (λ m. (refl, refl, refl, refl, refl)))
          (if-Keeps _ (of_set_state _ _ _) (of_set_state _ _ _)))))

  periodic-Keeps : (config : AgentConfig) → Keeps R (schedule_periodic_restart host config)
  unfolding schedule_periodic_restart
  periodic-Keeps config = if-Keeps _ (of_update _ (λ m. (refl, refl, refl, refl, refl))) (
      bind-Keeps of_now (λ t. bind-Keeps (gets-Keeps _) (λ m.
        option-Keeps m.next_scheduled_restart_at (of_update _ (λ m. (refl, refl, refl, refl, refl)))
          (λ next. if-Keeps _ done-Keeps (
            if-Keeps _ (of_update _ (λ m. (refl, refl, refl, refl, refl)))
              (request-Keeps scheduled))))))

  modified-Keeps : (path : Option String) → Keeps R (upgrade_marker_modified host path)
  unfolding upgrade_marker_modified
  modified-Keeps none = pure-Keeps _
  modified-Keeps (some path) = of_outside _ (stats path)

  marker-Keeps : (config : AgentConfig) → Keeps R (schedule_upgrade_marker_restart host config)
  unfolding schedule_upgrade_marker_restart
  marker-Keeps config =
      bind-Keeps (modified-Keeps (managed_config host config).upgrade_marker_file) (λ modified.
        bind-Keeps (gets-Keeps _) (λ last.
          if-Keeps _
            (then-Keeps (of_update _ (λ m. (refl, refl, refl, refl, refl)))
              (request-Keeps upgrade_marker))
            done-Keeps))

  pub schedule-Keeps :
      (config : AgentConfig) → Keeps R (schedule_configured_restart_requests host config)
  unfolding schedule_configured_restart_requests
  schedule-Keeps config = then-Keeps (periodic-Keeps config) (marker-Keeps config)

  arm-Keeps : (config : AgentConfig) → Keeps R (arm_next_scheduled_restart host config)
  unfolding arm_next_scheduled_restart
  arm-Keeps config =
      if-Keeps _ (of_update _ (λ m. (refl, refl, refl, refl, refl)))
        (bind-Keeps of_now (λ t. of_update _ (λ m. (refl, refl, refl, refl, refl))))

  deadline-Keeps :
      (config : AgentConfig) (pending : PendingAppServerRestart)
      → Keeps R (scheduled_restart_backoff_deadline host config pending)
  unfolding scheduled_restart_backoff_deadline
  deadline-Keeps config pending = bind-Keeps (gets-Keeps _) (λ m. if-Keeps _ (pure-Keeps _) (
      option-Keeps (start_backoff_deadline host config m) (pure-Keeps _)
        (λ deadline. bind-Keeps of_now (λ t. pure-Keeps _))))

  block-Keeps :
      (config : AgentConfig) (reason : AppServerRestartReason)
      → Keeps R (block_unowned_listener_restart host config reason)
  unfolding block_unowned_listener_restart
  block-Keeps config reason = bind-Keeps (gets-Keeps _) (λ child. if-Keeps _ (pure-Keeps _) (
      bind-Keeps (probe-Keeps host R frame config)
        (λ url. if-Keeps _ (pure-Keeps _) (then-Keeps (of_set_state _ _ _) (pure-Keeps _)))))

  result-Keeps :
      (reason : AppServerRestartReason) (ready : Bool)
      → Keeps R (record_forced_restart_result host reason ready)
  unfolding record_forced_restart_result
  result-Keeps reason ready =
      bind-Keeps (gets-Keeps _) (λ m. if-Keeps ready (of_set_state _ _ _) (of_set_state _ _ _))

  perform-Keeps :
      (config : AgentConfig) (pending : PendingAppServerRestart) (force_restart : Bool)
      → Keeps R (perform_restart host config pending force_restart)
  unfolding perform_restart
  perform-Keeps config pending force_restart =
      then-Keeps (of_update _ (λ m. (refl, refl, refl, refl, refl))) (
        then-Keeps (arm-Keeps config) (
          bind-Keeps (gets-Keeps _) (λ child.
            then-Keeps (if-Keeps _ (of_update _ (λ m. (refl, refl, refl, refl, refl))) done-Keeps) (
              then-Keeps (of_set_state _ _ _) (
                bind-Keeps (stop_checked-Keeps host R frame) (elim [
                  | err error ↦
                      then-Keeps (of_update _ (λ m. (refl, refl, refl, refl, refl)))
                        (then-Keeps (of_set_state _ _ _) (pure-Keeps _))
                  | ok _ ↦ bind-Keeps (block-Keeps config pending.reason) (λ blocked.
                      if-Keeps blocked
                        (then-Keeps (of_update _ (λ m. (refl, refl, refl, refl, refl)))
                          (pure-Keeps _))
                        (bind-Keeps (ensure-Keeps host R frame config) (λ url.
                          then-Keeps (if-Keeps _ (arm-Keeps config) done-Keeps) (
                            then-Keeps (if-Keeps _ (result-Keeps pending.reason _) done-Keeps)
                              (pure-Keeps _)))))
                ]))))))

  expired-Keeps :
      (config : AgentConfig) (pending : PendingAppServerRestart)
      → Keeps R (drain_expired host config pending)
  unfolding drain_expired
  expired-Keeps config pending =
      bind-Keeps (gets-Keeps _)
        (λ turns. if-Keeps _ (pure-Keeps _) (bind-Keeps of_now (λ t. pure-Keeps _)))

  advance_at-Keeps :
      (config : AgentConfig) (pending : PendingAppServerRestart) (force_restart : Bool)
      (backoff_deadline : Option ℕ)
      → Keeps R (advance_at host config pending force_restart backoff_deadline)
  unfolding advance_at
  advance_at-Keeps config pending force_restart backoff_deadline =
      bind-Keeps (gets-Keeps _) (λ turns.
        if-Keeps _
          (then-Keeps (of_update _ (λ m. (refl, refl, refl, refl, refl)))
            (then-Keeps (of_set_state _ _ _) (pure-Keeps _)))
          (if-Keeps _ (then-Keeps (of_set_state _ _ _) (pure-Keeps _)) (
            bind-Keeps (block-Keeps config pending.reason) (λ blocked.
              if-Keeps blocked (pure-Keeps _) (
                if-Keeps _
                  (then-Keeps (of_update _ (λ m. (refl, refl, refl, refl, refl)))
                    (ensure-Keeps host R frame config))
                  (perform-Keeps config pending force_restart))))))

  pub advance-Keeps : (config : AgentConfig) → Keeps R (advance_pending_restart host config)
  unfolding advance_pending_restart
  advance-Keeps config = bind-Keeps (gets-Keeps _) (elim [
    | none ↦ pure-Keeps _
    | some pending ↦ then-Keeps (clear-Keeps host R frame) (
        bind-Keeps (expired-Keeps config pending) (λ force_restart.
          bind-Keeps (deadline-Keeps config pending)
            (λ deadline. advance_at-Keeps config pending force_restart deadline)))
  ])
