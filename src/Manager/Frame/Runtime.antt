-- ===== src/Manager/Frame/Runtime.antt =====
-- What the connector calls of the manager (crates/agent/src/app_server_manager.rs) keeps a frame.
use chaop.Base.{
  Preorder, Keeps, pure-Keeps, done-Keeps, gets-Keeps, bind-Keeps, then-Keeps, if-Keeps,
}
use chaop.Config.{AgentConfig}
use chaop.Manager.Host.{Host, State}
use chaop.Manager.Runtime.{
  runtime_app_server_url, active_turn_app_server_url, runtime_config, runtime_config_without_start,
  runtime_config_during_active_turn, instance_snapshot,
}
use chaop.Manager.Frame.{IsFrame}
use chaop.Manager.Frame.Ready.{probe-Keeps, ensure-Keeps, external-Keeps}
use chaop.Manager.Frame.Restart.{schedule-Keeps, advance-Keeps}

module _ (host : Host) (R : Preorder (State host)) (frame : IsFrame host R) where
  open frame use {of_outside, of_now, of_set_state, of_update}

  url-Keeps : (config : AgentConfig) → Keeps R (runtime_app_server_url host config)
  unfolding runtime_app_server_url
  url-Keeps config = then-Keeps (schedule-Keeps host R frame config) (
      bind-Keeps (gets-Keeps _) (λ pending.
        if-Keeps _ (advance-Keeps host R frame config) (ensure-Keeps host R frame config)))

  active_url-Keeps : (config : AgentConfig) → Keeps R (active_turn_app_server_url host config)
  unfolding active_turn_app_server_url
  active_url-Keeps config = then-Keeps (schedule-Keeps host R frame config) (
      bind-Keeps (gets-Keeps _)
        (λ pending. if-Keeps _ (advance-Keeps host R frame config) (pure-Keeps _)))

  pub runtime_config-Keeps : (config : AgentConfig) → Keeps R (runtime_config host config)
  unfolding runtime_config
  runtime_config-Keeps config =
      bind-Keeps (gets-Keeps _)
        (λ enabled. if-Keeps _ (pure-Keeps _) (bind-Keeps (url-Keeps config) (λ url. pure-Keeps _)))

  pub without_start-Keeps :
      (config : AgentConfig) → Keeps R (runtime_config_without_start host config)
  unfolding runtime_config_without_start
  without_start-Keeps config = bind-Keeps (gets-Keeps _) (λ enabled.
      if-Keeps _ (pure-Keeps _)
        (bind-Keeps (probe-Keeps host R frame config) (λ url. pure-Keeps _)))

  pub active_turn-Keeps :
      (config : AgentConfig) → Keeps R (runtime_config_during_active_turn host config)
  unfolding runtime_config_during_active_turn
  active_turn-Keeps config = bind-Keeps (gets-Keeps _) (λ enabled.
      if-Keeps _ (pure-Keeps _) (bind-Keeps (active_url-Keeps config) (λ url. pure-Keeps _)))

  pub snapshot-Keeps : (config : AgentConfig) → Keeps R (instance_snapshot host config)
  unfolding instance_snapshot
  snapshot-Keeps config = bind-Keeps (gets-Keeps _) (λ enabled.
      if-Keeps _ (pure-Keeps _)
        (then-Keeps (if-Keeps _ done-Keeps (external-Keeps host R frame config)) (gets-Keeps _)))
