-- ===== src/Manager/Health.antt =====
-- A URL is handed out in a healthy state only (crates/agent/src/app_server_manager.rs).
use chaop.Base.{
  ℕ, ◌≡◌, refl, String, Bool, true, false, Option, none, some, ok, err, arith, ◌>>=◌, ◌>>◌, pure,
  gets, done, if◌then◌else◌, is_some, ltb, not, ◌&&◌, Ensures, chain-Ensures, bind-Ensures,
  then-Ensures, gets-Ensures, if-Ensures,
}
use chaop.Config.{AgentConfig}
use chaop.Config.Url.{is_managed_listen_url}
use chaop.Manager.Types.{AppServerManager, AppServerRestartReason, PendingAppServerRestart, healthy}
use chaop.Manager.Host.{Host, State, now, update}
use chaop.Manager.Process.{set_state, validated_listen_url}
use chaop.Manager.Ready.{become_healthy, start_child, replace_child, recover, ensure_ready}
use chaop.Manager.Restart.{
  arm_next_scheduled_restart, record_forced_restart_result, perform_restart, advance_at, drain_on,
  advance_pending_restart,
}
use chaop.Manager.Runtime.{runtime_app_server_url, runtime_config}

module _ (host : Host) where
  -- What holds when a URL, if any, is handed out: it names a listener that the manager may own, and
  -- the instance is healthy, with no error left.
  abbrev pub HealthyUrl : Option String → State host → Type 0
  HealthyUrl none s = Unit {0}
  HealthyUrl (some url) s =
      (is_managed_listen_url host.urls url ≡ true)
      × (s.manager.state ≡ healthy)
      × (s.manager.last_error ≡ none)

  refused : Ensures HealthyUrl (pure none)
  unfolding pure
  refused = record { holds = λ s. tt }

  module _ (url : String) (managed : is_managed_listen_url host.urls url ≡ true) where
    become-Healthy : Ensures HealthyUrl (become_healthy host url)
    unfolding become_healthy set_state update ◌>>◌ pure
    become-Healthy = record { holds = λ s. (managed, refl, refl) }

    start-Healthy : (config : AgentConfig) → Ensures HealthyUrl (start_child host config url)
    unfolding start_child
    start-Healthy config = bind-Ensures _ (elim [
      | ok child ↦ then-Ensures _ (
          bind-Ensures _ (λ ready.
            if-Ensures ready become-Healthy
              (then-Ensures _ (then-Ensures _ (then-Ensures _ refused)))))
      | err error ↦ then-Ensures _ (then-Ensures _ refused)
    ])

    replace-Healthy : (config : AgentConfig) → Ensures HealthyUrl (replace_child host config url)
    unfolding replace_child
    replace-Healthy config = bind-Ensures _ (λ child.
        if-Ensures _
          (then-Ensures _ (
            bind-Ensures _ (elim [
              | ok _ ↦ start-Healthy config
              | err error ↦ then-Ensures _ (then-Ensures _ refused)
            ])))
          (start-Healthy config))

    recover-Healthy : (config : AgentConfig) → Ensures HealthyUrl (recover host config url)
    unfolding recover
    recover-Healthy config = bind-Ensures _ (λ allowed. bind-Ensures _ (λ m. bind-Ensures _ (λ stop.
        if-Ensures _ (if-Ensures _ refused (then-Ensures _ refused))
          (if-Ensures _ (then-Ensures _ refused) (replace-Healthy config)))))

  abbrev IsManaged : Option String → Type 0
  IsManaged none = Unit {0}
  IsManaged (some url) = is_managed_listen_url host.urls url ≡ true

  validated-IsManaged : (m : AppServerManager host.Child) → IsManaged (validated_listen_url host m)
  unfolding validated_listen_url
  validated-IsManaged m = ground arith

  ensure-Healthy : (config : AgentConfig) → Ensures HealthyUrl (ensure_ready host config)
  unfolding ensure_ready
  ensure-Healthy config =
      gets-Ensures _ IsManaged _ (λ s. validated-IsManaged s.manager)
        (elim [
          | none ↦ λ q. then-Ensures _ refused
          | some url ↦ λ managed. then-Ensures _ (
              bind-Ensures _ (elim [
                | ok _ ↦ become-Healthy url managed
                | err _ ↦ recover-Healthy url managed config
              ]))
        ])

  -- The end of a restart, from a state in which the URL is handed out.
  settled-Healthy :
      (config : AgentConfig) (reason : AppServerRestartReason) (force_restart : Bool)
      (url : Option String) (s : State host)
      → HealthyUrl url s
      → let m = do
        (if is_some url then arm_next_scheduled_restart host config else done)
        (if force_restart then record_forced_restart_result host reason (is_some url) else done)
        pure url
        in HealthyUrl (m s).0 (m s).1
  unfolding arm_next_scheduled_restart record_forced_restart_result set_state ◌>>=◌ ◌>>◌ pure gets
      done now update
  settled-Healthy config reason force_restart none s h = tt
  settled-Healthy config reason true (some url) s h = (h.0, refl, refl)
  settled-Healthy config reason false (some url) s h = ground arith

  perform-Healthy :
      (config : AgentConfig) (pending : PendingAppServerRestart) (force_restart : Bool)
      → Ensures HealthyUrl (perform_restart host config pending force_restart)
  unfolding perform_restart
  perform-Healthy config pending force_restart = then-Ensures _ (
      then-Ensures _ (
        bind-Ensures _ (λ child. then-Ensures _ (
          then-Ensures _ (
            bind-Ensures _ (elim [
              | err error ↦ then-Ensures _ (then-Ensures _ refused)
              | ok _ ↦ bind-Ensures _ (λ blocked. if-Ensures blocked (then-Ensures _ refused) (
                  chain-Ensures HealthyUrl _ (ensure-Healthy config)
                    (settled-Healthy config pending.reason force_restart)))
            ]))))))

  drained : (pending : PendingAppServerRestart) → Ensures HealthyUrl (drain_on host pending)
  drained pending = then-Ensures _ refused

  advance_at-Healthy :
      (config : AgentConfig) (pending : PendingAppServerRestart) (force_restart : Bool)
      (backoff_deadline : Option ℕ)
      → Ensures HealthyUrl (advance_at host config pending force_restart backoff_deadline)
  unfolding advance_at
  advance_at-Healthy config pending force_restart backoff_deadline = bind-Ensures _ (λ turns.
      if-Ensures (ltb 0 turns && is_some backoff_deadline) (then-Ensures _ (drained pending)) (
        if-Ensures (ltb 0 turns && not force_restart) (drained pending) (
          bind-Ensures _ (λ blocked. if-Ensures blocked refused (
            if-Ensures _ (then-Ensures _ (ensure-Healthy config))
              (perform-Healthy config pending force_restart))))))

  advance-Healthy :
      (config : AgentConfig) → Ensures HealthyUrl (advance_pending_restart host config)
  unfolding advance_pending_restart
  advance-Healthy config = bind-Ensures _ (elim [
    | none ↦ refused
    | some pending ↦ then-Ensures _ (
        bind-Ensures _ (λ force_restart.
          bind-Ensures _ (λ deadline. advance_at-Healthy config pending force_restart deadline)))
  ])

  url-Healthy : (config : AgentConfig) → Ensures HealthyUrl (runtime_app_server_url host config)
  unfolding runtime_app_server_url
  url-Healthy config =
      then-Ensures _
        (bind-Ensures _ (λ pending. if-Ensures _ (advance-Healthy config) (ensure-Healthy config)))

  -- In managed mode the runtime configuration has an app-server URL only if the instance is then
  -- healthy with no error left, and the URL is one that the manager may listen on.
  pub runtime_config-Healthy :
      (config : AgentConfig) (s : State host)
      → s.manager.enabled ≡ true
      → HealthyUrl
          (runtime_config host config s).0.session_inventory.app_server_url
          (runtime_config host config s).1
  unfolding runtime_config ◌>>=◌ gets pure
  runtime_config-Healthy config s enabled = simp enabled ((url-Healthy config).holds s)
