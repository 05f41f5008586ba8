-- ===== src/Manager/Ready.antt =====
-- Health of the app-server: the probe, the start with its wait, and the state of an external
-- endpoint (crates/agent/src/app_server_manager.rs).
use chaop.Base.{
  ℕ, zero, suc, ◌+◌, ◌-◌, ◌/◌, ◌==◌, ltb, leb, min, max, String, Bool, true, false, not, ◌&&◌, ◌||◌,
  Option, none, some, if◌then◌else◌, is_some, is_some_and, Result, ok, err, is_ok, starts_with,
  ◌>>=◌, ◌>>◌, pure, gets, done,
}
use chaop.Config.{AgentConfig}
use chaop.Manager.Types.{
  healthy, degraded, restarting, stopped, same_state, AppServerManager, secs, millis,
  app_server_external_probe_interval, app_server_drain_timeout_detail,
}
use chaop.Manager.Host.{Host, State, M, now, outside, update}
use chaop.Manager.Process.{
  set_state, stop_child, stop_child_checked, record_start_failure, clear_exited_child,
  can_attempt_start, validated_listen_url, spawn_app_server,
}

abbrev pub probe_round : ℕ
probe_round = millis 100

abbrev pub startup_timeout : AgentConfig → ℕ
startup_timeout config =
    secs (max config.session_inventory.managed_app_server.startup_timeout_seconds 1)

module _ (host : Host) where
  -- `app_server_health_check_with_auth`: at least one second is given.
  unfoldable pub health_check_with_auth : AgentConfig → String → M host (Result (Unit {0}) String)
  health_check_with_auth config url = outside host (
      host.health_check url (secs (max config.session_inventory.app_server_timeout_seconds 1))
        config.session_inventory.app_server_auth_token_file)

  unfoldable pub probe_ready : AgentConfig → M host (Option String)
  unfolding health_check_with_auth
  probe_ready config = do
    url ← gets (λ (s : State host). validated_listen_url host s.manager)
    elim url [
      | none ↦ pure none
      | some listen_url ↦ do
        result ← health_check_with_auth config listen_url
        pure (if is_ok result then some listen_url else none)
    ]

  -- The end of a round of `wait_until_ready`: a nap, then the next round.
  unfoldable pub nap : ℕ → M host (Unit {0})
  nap deadline = do
    t ← now host
    (if deadline - t == 0
        then done
        else outside host (λ w. (tt, host.sleep (min (deadline - t) probe_round) w)))

  -- The health check of one round, which counts up to the deadline only.
  unfoldable pub healthy_in_time : AgentConfig → String → ℕ → ℕ → M host Bool
  healthy_in_time config listen_url deadline remaining = do
    result ← outside host (
        host.health_check listen_url
          (min remaining (secs (max config.session_inventory.app_server_timeout_seconds 1)))
          config.session_inventory.app_server_auth_token_file)
    elim result [ err e ↦ pure false | ok _ ↦ do t ← now host; pure (leb t deadline) ]

  -- One round of `wait_until_ready`: `some b` returns `b`, `none` goes on.
  unfoldable pub ready_round : AgentConfig → String → ℕ → M host (Option Bool)
  unfolding nap healthy_in_time
  ready_round config listen_url deadline = do
    start ← now host
    stop ← gets (λ (s : State host). host.shutdown_requested s.world)
    (if not (ltb start deadline) || stop then pure (some false) else do
      clear_exited_child host
      child ← gets (λ (s : State host). s.manager.child)
      t ← now host
      (if not (is_some child) || deadline - t == 0 then pure (some false) else do
        ready ← healthy_in_time config listen_url deadline (deadline - t)
        (if ready then pure (some true) else (nap deadline >> pure none))))

  unfoldable pub wait_until_ready_loop : ℕ → AgentConfig → String → ℕ → M host Bool
  wait_until_ready_loop zero config listen_url deadline = pure false
  wait_until_ready_loop (suc fuel) config listen_url deadline =
      let again = wait_until_ready_loop fuel config listen_url deadline in
      do
        round ← ready_round config listen_url deadline
        elim round [ some b ↦ pure b | none ↦ again ]

  -- The source panics where the clock plus the timeout leaves the range of an `Instant`; the sum has no
  -- bound here.
  unfoldable pub wait_until_ready : AgentConfig → String → M host Bool
  wait_until_ready config listen_url = do
    t ← now host
    wait_until_ready_loop (startup_timeout config / probe_round + 2) config listen_url
        (t + startup_timeout config)

  abbrev pub should_preserve_forced_restart_backoff_summary : AppServerManager host.Child → Bool
  should_preserve_forced_restart_backoff_summary m =
      same_state m.state degraded
      && is_some_and m.last_error (λ error. starts_with error app_server_drain_timeout_detail)

  abbrev fail : String → String → M host (Option String)
  fail summary error = set_state host degraded summary (some error) >> pure none

  unfoldable pub become_healthy : String → M host (Option String)
  become_healthy listen_url =
      set_state host healthy "Managed app-server is healthy." none >> pure (some listen_url)

  -- The end of `ensure_ready`: no child is held any more, so one is started.
  unfoldable pub start_child : AgentConfig → String → M host (Option String)
  start_child config listen_url = do
    spawned ← spawn_app_server host config listen_url
    elim spawned [
      | ok child ↦ do
        update host (λ m. record m { child = some child })
        ready ← wait_until_ready config listen_url
        (if ready then become_healthy listen_url else do
          stop_child host
          record_start_failure host
          fail "Managed app-server did not become healthy before startup timeout."
              "Startup health check timed out.")
      | err error ↦
          record_start_failure host >> fail "Failed to start managed app-server." error.text
    ]

  -- An unhealthy child is stopped before another one starts.
  unfoldable pub replace_child : AgentConfig → String → M host (Option String)
  replace_child config listen_url = do
    child ← gets (λ (s : State host). s.manager.child)
    (if is_some child
        then (do
          set_state host restarting "Restarting unhealthy managed app-server." none
          stop ← stop_child_checked host
          elim stop [
            | ok _ ↦ start_child config listen_url
            | err error ↦
                record_start_failure host
                >> fail "Failed to stop unhealthy managed app-server." error.text
          ])
        else start_child config listen_url)

  -- The steps of `ensure_ready` once the health check has failed.
  unfoldable pub recover : AgentConfig → String → M host (Option String)
  recover config listen_url = do
    allowed ← can_attempt_start host config
    m ← gets (λ (s : State host). s.manager)
    stop ← gets (λ (s : State host). host.shutdown_requested s.world)
    (if not allowed
        then (if should_preserve_forced_restart_backoff_summary m
            then pure none
            else fail "Managed app-server restart backoff is active."
                "Health check failed while restart backoff is active.")
        else (if stop
            then (do
              set_state host stopped "Connector shutdown requested before managed app-server start."
                  none
              pure none)
            else replace_child config listen_url))

  unfoldable pub ensure_ready : AgentConfig → M host (Option String)
  ensure_ready config = do
    url ← gets (λ (s : State host). validated_listen_url host s.manager)
    elim url [
      | none ↦
          fail "Managed app-server listen URL is missing or not local."
            "Invalid managed app-server listen URL."
      | some listen_url ↦ do
        clear_exited_child host
        result ← health_check_with_auth config listen_url
        elim result [ ok _ ↦ become_healthy listen_url | err _ ↦ recover config listen_url ]
    ]

  -- `refresh_external_state`, at most once in 30 seconds.
  unfoldable pub refresh_external_state : AgentConfig → M host (Unit {0})
  refresh_external_state config = elim config.session_inventory.app_server_url [
    | none ↦ done
    | some url ↦ do
      t ← now host
      last ← gets (λ (s : State host). s.manager.last_external_probe)
      (if is_some_and last (λ l. ltb (t - l) app_server_external_probe_interval) then done else do
        update host (λ m. record m { last_external_probe = some t })
        result ← health_check_with_auth config url
        elim result [
          | ok _ ↦ set_state host healthy "External app-server is healthy." none
          | err error ↦
              set_state host degraded "External app-server health check failed." (some error)
        ])
  ]
