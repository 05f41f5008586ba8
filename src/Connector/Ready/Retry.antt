-- ===== src/Connector/Ready/Retry.antt =====
-- When the announcement of the capabilities is sent again (crates/agent/src/connector.rs).
use chaop.Base.{ℕ, ◌-◌, ltb, ◌≡◌, arith, String, str_eq_iff, Bool, false, not, ◌&&◌, some, List, ok}
use chaop.Config.{AgentConfig, capabilities}
use chaop.Json.{Value, object, field, end, array, string, Serde}
use chaop.Connector.Message.{message, is_text, agent_ready_retry_interval, strings}
use chaop.Connector.Ready.{
  AgentReadyState, Sent, record_agent_ready_sent, should_send_agent_ready, send_agent_ready,
}

-- An announcement that was sent at time `at` is sent again at time `now`, unless it is forced,
-- exactly when the state holds no acknowledgement of it and ten seconds have passed.
pub ready_resends :
    (serde : Serde) (socket : String → Bool) (config : AgentConfig) (state : AgentReadyState)
    (force : Bool) (at now : ℕ) (sent : Sent) (text : String)
    → send_agent_ready serde socket config state force at ≡ ok sent
    → sent.wire ≡ some text
    → should_send_agent_ready text sent.state false now ≡ (
        not (is_text sent.state.last_acked text) && not (ltb (now - at) agent_ready_retry_interval))
unfolding send_agent_ready record_agent_ready_sent should_send_agent_ready
ready_resends serde socket config state force at now sent text done wired =
    ground (arith, str_eq_iff text text)

-- The acknowledgement that the control plane writes for the given capabilities.
abbrev pub ready_ack : List String → Value
ready_ack capabilities = message "server.ack" (
    object (
      field "capabilities" (array (strings capabilities))
        (field "kind" (string "agent.ready") end)))
