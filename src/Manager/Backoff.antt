-- ===== src/Manager/Backoff.antt =====
-- No start within the backoff after a failed one (crates/agent/src/app_server_manager.rs).
use chaop.Base.{
  ℕ, ◌<◌, ◌≡◌, String, none, some, Result, err, arith, max, ◌>>=◌, ◌>>◌, pure, gets, done,
}
use chaop.Config.{AgentConfig}
use chaop.Manager.Types.{degraded, secs}
use chaop.Manager.Host.{Host, State, now, outside, update}
use chaop.Manager.Process.{
  set_state, clear_exited_child, start_backoff_deadline, can_attempt_start, validated_listen_url,
}
use chaop.Manager.Ready.{health_check_with_auth, recover, ensure_ready}

module _ (host : Host) where
  -- The answer of the health check that `ensure_ready` makes when no child is held.
  abbrev pub check : AgentConfig → String → host.World → Result (Unit {0}) String × host.World
  check config url =
      host.health_check url (secs (max config.session_inventory.app_server_timeout_seconds 1))
        config.session_inventory.app_server_auth_token_file

  module _ (config : AgentConfig) (s : State host) (url : String)
      (valid : validated_listen_url host s.manager ≡ some url) (free : s.manager.child ≡ none) where
    -- Within the backoff after a failed start an unhealthy listener without a child is not started:
    -- no URL is handed out, no child is held, the instance is degraded, and the world has seen the
    -- health check and one look at the clock, nothing else.
    pub ensure_backs_off :
        (error : String) (deadline : ℕ)
        → (check config url s.world).0 ≡ err error
        → start_backoff_deadline host config s.manager ≡ some deadline
        → host.clock (host.read_clock (check config url s.world).1) < deadline
        → let r = ensure_ready host config s in
          (r.0 ≡ none)
          × (r.1.manager.child ≡ none)
          × (r.1.manager.state ≡ degraded)
          × (r.1.manager.last_start_failure ≡ s.manager.last_start_failure)
          × (r.1.world ≡ host.read_clock (check config url s.world).1)
    unfolding ensure_ready clear_exited_child health_check_with_auth recover can_attempt_start
        set_state update outside now gets pure done ◌>>=◌ ◌>>◌
    ensure_backs_off error deadline failed backoff early = ground arith
