-- ===== src/Manager/Frame/Ready.antt =====
-- The probe, the start and the recovery (crates/agent/src/app_server_manager.rs) keep a frame.
use chaop.Base.{
  ◌-◌, ℕ, zero, suc, refl, String, Option, none, some, ok, err, Preorder, Keeps, pure-Keeps,
  done-Keeps, gets-Keeps, bind-Keeps, then-Keeps, if-Keeps, option-Keeps,
}
use chaop.Config.{AgentConfig}
use chaop.Manager.Types.{app_server_spawn_attempts}
use chaop.Manager.Host.{Host, IoError, Command, State}
use chaop.Manager.Process.{app_server_command, can_attempt_start, spawn_attempts, spawn_app_server}
use chaop.Manager.Ready.{
  health_check_with_auth, probe_ready, healthy_in_time, ready_round, wait_until_ready_loop,
  wait_until_ready, become_healthy, start_child, replace_child, recover, ensure_ready,
  refresh_external_state,
}
use chaop.Manager.Frame.{IsFrame, sleeps, checks, spawns}
use chaop.Manager.Frame.Process.{stop_checked-Keeps, stop-Keeps, failure-Keeps, clear-Keeps}

module _ (host : Host) (R : Preorder (State host)) (frame : IsFrame host R) where
  open frame use {of_outside, of_now, of_set_state, of_update}

  pub health-Keeps :
      (config : AgentConfig) (url : String) → Keeps R (health_check_with_auth host config url)
  unfolding health_check_with_auth
  health-Keeps config url = of_outside _ (checks _ _ _)

  pub attempt-Keeps : (config : AgentConfig) → Keeps R (can_attempt_start host config)
  unfolding can_attempt_start
  attempt-Keeps config =
      bind-Keeps (gets-Keeps _)
        (elim [ none ↦ pure-Keeps _ | some d ↦ bind-Keeps of_now (λ t. pure-Keeps _) ])

  pub spawn_attempts-Keeps :
      (left : ℕ) (command : Command) (last_busy : Option IoError)
      → Keeps R (spawn_attempts host left command last_busy)
  unfolding spawn_attempts
  spawn_attempts-Keeps zero command last_busy = pure-Keeps _
  spawn_attempts-Keeps (suc left) command last_busy =
      bind-Keeps (of_outside _ (spawns command)) (elim [
        | ok child ↦ pure-Keeps _
        | err e ↦
            if-Keeps _
              (then-Keeps (of_outside _ (sleeps _)) (spawn_attempts-Keeps left command (some e)))
              (pure-Keeps _)
      ])

  pub probe-Keeps : (config : AgentConfig) → Keeps R (probe_ready host config)
  unfolding probe_ready
  probe-Keeps config = bind-Keeps (gets-Keeps _) (elim [
    | none ↦ pure-Keeps _
    | some url ↦ bind-Keeps (of_outside _ (checks _ _ _)) (λ result. pure-Keeps _)
  ])

  pub in_time-Keeps :
      (config : AgentConfig) (url : String) (deadline remaining : ℕ)
      → Keeps R (healthy_in_time host config url deadline remaining)
  unfolding healthy_in_time
  in_time-Keeps config url deadline remaining =
      bind-Keeps (of_outside _ (checks _ _ _))
        (elim [ err e ↦ pure-Keeps _ | ok _ ↦ bind-Keeps of_now (λ u. pure-Keeps _) ])

  pub round-Keeps :
      (config : AgentConfig) (url : String) (deadline : ℕ)
      → Keeps R (ready_round host config url deadline)
  unfolding ready_round
  round-Keeps config url deadline = bind-Keeps of_now (λ start. bind-Keeps (gets-Keeps _) (λ stop.
      if-Keeps _ (pure-Keeps _) (
        then-Keeps (clear-Keeps host R frame) (
          bind-Keeps (gets-Keeps _) (λ child. bind-Keeps of_now (λ t. if-Keeps _ (pure-Keeps _) (
            bind-Keeps (in_time-Keeps config url deadline (deadline - t)) (λ ready.
              if-Keeps ready (pure-Keeps _) (
                then-Keeps
                  (bind-Keeps of_now (λ u. if-Keeps _ done-Keeps (of_outside _ (sleeps _))))
                  (pure-Keeps _))))))))))

  pub wait_loop-Keeps :
      (fuel : ℕ) (config : AgentConfig) (url : String) (deadline : ℕ)
      → Keeps R (wait_until_ready_loop host fuel config url deadline)
  unfolding wait_until_ready_loop
  wait_loop-Keeps zero config url deadline = pure-Keeps _
  wait_loop-Keeps (suc fuel) config url deadline =
      let again = wait_loop-Keeps fuel config url deadline in
      bind-Keeps (round-Keeps config url deadline) (elim [ some b ↦ pure-Keeps _ | none ↦ again ])

  pub wait-Keeps :
      (config : AgentConfig) (url : String) → Keeps R (wait_until_ready host config url)
  unfolding wait_until_ready
  wait-Keeps config url = bind-Keeps of_now (λ t. wait_loop-Keeps _ config url _)

  pub healthy-Keeps : (url : String) → Keeps R (become_healthy host url)
  unfolding become_healthy
  healthy-Keeps url = then-Keeps (of_set_state _ _ _) (pure-Keeps _)

  pub start-Keeps : (config : AgentConfig) (url : String) → Keeps R (start_child host config url)
  unfolding start_child spawn_app_server
  start-Keeps config url =
      bind-Keeps
        (spawn_attempts-Keeps app_server_spawn_attempts (app_server_command host config url) none)
        (elim [
          | ok child ↦ then-Keeps (of_update _ (λ m. (refl, refl, refl, refl, refl))) (
              bind-Keeps (wait-Keeps config url) (λ ready. if-Keeps ready (healthy-Keeps url) (
                then-Keeps (stop-Keeps host R frame) (
                  then-Keeps (failure-Keeps host R frame)
                    (then-Keeps (of_set_state _ _ _) (pure-Keeps _))))))
          | err error ↦
              then-Keeps (failure-Keeps host R frame)
                (then-Keeps (of_set_state _ _ _) (pure-Keeps _))
        ])

  pub replace-Keeps :
      (config : AgentConfig) (url : String) → Keeps R (replace_child host config url)
  unfolding replace_child
  replace-Keeps config url = bind-Keeps (gets-Keeps _) (λ child.
      if-Keeps _
        (then-Keeps (of_set_state _ _ _) (
          bind-Keeps (stop_checked-Keeps host R frame) (elim [
            | ok _ ↦ start-Keeps config url
            | err error ↦
                then-Keeps (failure-Keeps host R frame)
                  (then-Keeps (of_set_state _ _ _) (pure-Keeps _))
          ])))
        (start-Keeps config url))

  pub recover-Keeps : (config : AgentConfig) (url : String) → Keeps R (recover host config url)
  unfolding recover
  recover-Keeps config url = bind-Keeps (attempt-Keeps config) (λ allowed.
      bind-Keeps (gets-Keeps _) (λ m. bind-Keeps (gets-Keeps _) (λ stop.
        if-Keeps _ (if-Keeps _ (pure-Keeps _) (then-Keeps (of_set_state _ _ _) (pure-Keeps _))) (
          if-Keeps _ (then-Keeps (of_set_state _ _ _) (pure-Keeps _)) (replace-Keeps config url)))))

  pub ensure-Keeps : (config : AgentConfig) → Keeps R (ensure_ready host config)
  unfolding ensure_ready
  ensure-Keeps config = bind-Keeps (gets-Keeps _) (elim [
    | none ↦ then-Keeps (of_set_state _ _ _) (pure-Keeps _)
    | some url ↦ then-Keeps (clear-Keeps host R frame) (
        bind-Keeps (health-Keeps config url)
          (elim [ ok _ ↦ healthy-Keeps url | err _ ↦ recover-Keeps config url ]))
  ])

  pub external-Keeps : (config : AgentConfig) → Keeps R (refresh_external_state host config)
  unfolding refresh_external_state
  external-Keeps config = option-Keeps config.session_inventory.app_server_url done-Keeps (λ url.
      bind-Keeps of_now (λ t. bind-Keeps (gets-Keeps _) (λ last. if-Keeps _ done-Keeps (
        then-Keeps (of_update _ (λ m. (refl, refl, refl, refl, refl))) (
          bind-Keeps (health-Keeps config url)
            (elim [ ok _ ↦ of_set_state _ _ _ | err error ↦ of_set_state _ _ _ ]))))))
