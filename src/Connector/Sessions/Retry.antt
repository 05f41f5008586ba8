-- ===== src/Connector/Sessions/Retry.antt =====
-- When the report of the host's sessions is sent again (crates/agent/src/connector.rs).
use chaop.Base.{ℕ, ◌-◌, ltb, ◌≡◌, arith, String, str_eq, Bool, false, not, ◌&&◌, some, ok}
use chaop.Connector.Message.{host_sessions_retry_interval}
use chaop.Connector.Sessions.{
  HostSessionsSendState, should_send_host_sessions, send_host_sessions_message,
  acknowledge_host_sessions,
}

-- A report of sessions that was sent at time `at` is sent again at time `now`, unless it is forced,
-- exactly when ten seconds have passed; once it is acknowledged it is not sent again. Another text
-- is sent at once in both cases.
sessions_resends :
    (socket : String → Bool) (text other : String) (state state' : HostSessionsSendState)
    (force : Bool) (at now : ℕ) (wire : String)
    → send_host_sessions_message socket text state force at ≡ ok (some wire, state')
    → (should_send_host_sessions other state' false now
        ≡ not (str_eq text other && ltb (now - at) host_sessions_retry_interval))
      × (should_send_host_sessions other (acknowledge_host_sessions state') false now
          ≡ not (str_eq text other))
unfolding send_host_sessions_message should_send_host_sessions acknowledge_host_sessions
sessions_resends socket text other state state' force at now wire went = ground arith
