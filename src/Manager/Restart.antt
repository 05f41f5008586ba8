-- ===== src/Manager/Restart.antt =====
-- Requests for a restart, the drain of the active turns and the restart itself, and what the
-- connector calls (crates/agent/src/app_server_manager.rs).
use chaop.Base.{
  ℕ, ◌-◌, ◌==◌, ltb, leb, max, String, Bool, true, false, not, ◌&&◌, ◌||◌, Option, none, some,
  if◌then◌else◌, is_some, is_some_and, ok, err, ◌str++◌, ◌>>=◌, ◌>>◌, pure, gets, done,
}
use chaop.Config.{AgentConfig, ManagedAppServerConfig}
use chaop.Manager.Types.{
  healthy, degraded, draining, restarting, AppServerRestartReason, scheduled, upgrade_marker,
  is_scheduled, overrides_start_backoff, supersedes, draining_summary, restarting_summary,
  forced_healthy_summary, forced_degraded_summary, unowned_listener_summary,
  PendingAppServerRestart, AppServerManager, secs, app_server_drain_timeout_detail,
}
use chaop.Manager.Host.{Host, State, M, now, outside, update, checked_add}
use chaop.Manager.Process.{
  set_state, stop_child_checked, clear_exited_child, start_backoff_deadline,
}
use chaop.Manager.Ready.{probe_ready, ensure_ready}

module _ (host : Host) where
  unfoldable pub request_restart : AppServerRestartReason → M host (Unit {0})
  request_restart reason = do
    m ← gets (λ (s : State host). s.manager)
    (if is_some_and m.pending_restart (λ pending. not (supersedes reason pending.reason))
        then done
        else do
          t ← now host
          update host (λ m. record m {
            pending_restart = some (record { reason = reason; requested_at = t });
          })
          (if ltb 0 m.active_turn_count
              then set_state host draining (draining_summary reason) none
              else set_state host restarting (restarting_summary reason false) none))

  abbrev pub managed_config : AgentConfig → ManagedAppServerConfig
  managed_config config = config.session_inventory.managed_app_server

  abbrev pub restart_interval : AgentConfig → ℕ
  restart_interval config = secs (managed_config config).scheduled_restart_interval_seconds

  abbrev set_next_scheduled : Option ℕ → M host (Unit {0})
  set_next_scheduled next = update host (λ m. record m { next_scheduled_restart_at = next })

  -- The test of `start_backoff_deadline(config).is_some_and(|deadline| now < deadline)`.
  abbrev pub in_backoff : AgentConfig → AppServerManager host.Child → ℕ → Bool
  in_backoff config m t = is_some_and (start_backoff_deadline host config m) (ltb t)

  unfoldable pub schedule_periodic_restart : AgentConfig → M host (Unit {0})
  schedule_periodic_restart config =
      if restart_interval config == 0 then set_next_scheduled none else do
        t ← now host
        m ← gets (λ (s : State host). s.manager)
        elim m.next_scheduled_restart_at [
          | none ↦ set_next_scheduled (checked_add host t (restart_interval config))
          | some next ↦
              if not (leb next t)
              then done
              else if not (is_some m.child) && in_backoff config m t
              then set_next_scheduled (start_backoff_deadline host config m)
              else request_restart scheduled
        ]

  -- `upgrade_marker_modified`: the marker's time of modification, if it can be read.
  unfoldable pub upgrade_marker_modified : Option String → M host (Option ℕ)
  upgrade_marker_modified none = pure none
  upgrade_marker_modified (some path) = outside host (host.modified path)

  -- The marker is new, or was changed since it was last seen.
  abbrev pub marker_is_newer : Option ℕ → Option ℕ → Bool
  marker_is_newer _ none = false
  marker_is_newer none (some current) = true
  marker_is_newer (some previous) (some current) = ltb previous current

  unfoldable pub schedule_upgrade_marker_restart : AgentConfig → M host (Unit {0})
  unfolding upgrade_marker_modified
  schedule_upgrade_marker_restart config = do
    modified ← upgrade_marker_modified (managed_config config).upgrade_marker_file
    last ← gets (λ (s : State host). s.manager.last_upgrade_marker_modified)
    (if marker_is_newer last modified
        then (do
          update host (λ m. record m { last_upgrade_marker_modified = modified })
          request_restart upgrade_marker)
        else done)

  unfoldable pub schedule_configured_restart_requests : AgentConfig → M host (Unit {0})
  schedule_configured_restart_requests config =
      schedule_periodic_restart config >> schedule_upgrade_marker_restart config

  unfoldable pub arm_next_scheduled_restart : AgentConfig → M host (Unit {0})
  arm_next_scheduled_restart config =
      if restart_interval config == 0
      then set_next_scheduled none
      else do t ← now host; set_next_scheduled (checked_add host t (restart_interval config))

  unfoldable pub scheduled_restart_backoff_deadline :
      AgentConfig → PendingAppServerRestart → M host (Option ℕ)
  scheduled_restart_backoff_deadline config pending = do
    m ← gets (λ (s : State host). s.manager)
    (if not (is_scheduled pending.reason) || is_some m.child
        then pure none
        else elim (start_backoff_deadline host config m) [
          | none ↦ pure none
          | some deadline ↦ do t ← now host; pure (if ltb t deadline then some deadline else none)
        ])

  -- A healthy listener that is not this connector's child cannot be restarted.
  unfoldable pub block_unowned_listener_restart : AgentConfig → AppServerRestartReason → M host Bool
  block_unowned_listener_restart config reason = do
    child ← gets (λ (s : State host). s.manager.child)
    (if is_some child then pure false else do
      url ← probe_ready host config
      (if not (is_some url) then pure false else do
        set_state host degraded (unowned_listener_summary reason) (
            some
              "Restart cannot stop the listening app-server because this connector did not start it.")
        pure true))

  abbrev pub forced_error : Option String → String
  forced_error none = app_server_drain_timeout_detail
  forced_error (some last_error) =
      app_server_drain_timeout_detail str++ " Last restart error: " str++ last_error

  unfoldable pub record_forced_restart_result : AppServerRestartReason → Bool → M host (Unit {0})
  record_forced_restart_result reason ready = do
    m ← gets (λ (s : State host). s.manager)
    (if ready
        then set_state host healthy (forced_healthy_summary reason) none
        else set_state host degraded (forced_degraded_summary reason)
            (some (forced_error m.last_error)))

  -- The restart proper: the last part of `advance_pending_restart`, behind its guards.
  unfoldable pub perform_restart :
      AgentConfig → PendingAppServerRestart → Bool → M host (Option String)
  perform_restart config pending force_restart = do
    update host (λ m. record m { pending_restart = none })
    arm_next_scheduled_restart config
    child ← gets (λ (s : State host). s.manager.child)
    (if is_some child || force_restart || overrides_start_backoff pending.reason
        then update host (λ m. record m { last_start_failure = none })
        else done)
    set_state host restarting (restarting_summary pending.reason force_restart)
        (if force_restart then some app_server_drain_timeout_detail else none)
    stop ← stop_child_checked host
    elim stop [
      | err error ↦ do
        update host (λ m. record m { pending_restart = some pending })
        set_state host degraded "Failed to stop managed app-server for restart." (some error.text)
        pure none
      | ok _ ↦ do
        blocked ← block_unowned_listener_restart config pending.reason
        (if blocked
            then (do update host (λ m. record m { pending_restart = some pending }); pure none)
            else do
              url ← ensure_ready host config
              (if is_some url then arm_next_scheduled_restart config else done)
              (if force_restart
                  then record_forced_restart_result pending.reason (is_some url)
                  else done)
              pure url)
    ]

  -- `force_restart`: the turns have been draining for the whole timeout.
  unfoldable pub drain_expired : AgentConfig → PendingAppServerRestart → M host Bool
  drain_expired config pending = do
    turns ← gets (λ (s : State host). s.manager.active_turn_count)
    (if not (ltb 0 turns) then pure false else do
      t ← now host
      pure (
          leb (secs (max (managed_config config).drain_timeout_seconds 1))
            (t - pending.requested_at)))

  abbrev pub drain_on : PendingAppServerRestart → M host (Option String)
  drain_on pending = set_state host draining (draining_summary pending.reason) none >> pure none

  -- What `advance_pending_restart` does once it knows the two deadlines.
  unfoldable pub advance_at :
      AgentConfig → PendingAppServerRestart → Bool → Option ℕ → M host (Option String)
  advance_at config pending force_restart backoff_deadline = do
    turns ← gets (λ (s : State host). s.manager.active_turn_count)
    (if ltb 0 turns && is_some backoff_deadline
        then set_next_scheduled backoff_deadline >> drain_on pending
        else if ltb 0 turns && not force_restart
        then drain_on pending
        else do
          blocked ← block_unowned_listener_restart config pending.reason
          (if blocked
              then pure none
              else if is_some backoff_deadline
              then (do
                update host (λ m. record m {
                  pending_restart = none;
                  next_scheduled_restart_at = backoff_deadline;
                })
                ensure_ready host config)
              else perform_restart config pending force_restart))

  unfoldable pub advance_pending_restart : AgentConfig → M host (Option String)
  advance_pending_restart config = do
    pending_restart ← gets (λ (s : State host). s.manager.pending_restart)
    elim pending_restart [
      | none ↦ pure none
      | some pending ↦ do
        clear_exited_child host
        force_restart ← drain_expired config pending
        backoff_deadline ← scheduled_restart_backoff_deadline config pending
        advance_at config pending force_restart backoff_deadline
    ]
