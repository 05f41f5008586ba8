-- ===== src/Connector/Ready.antt =====
-- The announcement of the connector's capabilities (crates/agent/src/connector.rs): when it is sent
-- again, and what an acknowledgement changes.
pub mod Retry
use chaop.Base.{
  ℕ, String, Bool, true, false, not, ◌&&◌, Option, none, some, List, if◌then◌else◌, Result, ok, err,
}
use chaop.Config.{AgentConfig, capabilities}
use chaop.Json.{Serde}
use chaop.Connector.Message.{
  agent_ready_message, agent_ready_ack_message, read_envelope, is_text, sent_within,
  agent_ready_retry_interval,
}

pub record AgentReadyState : Type 0 where
  pub last_sent : Option String
  pub last_sent_at : Option ℕ
  pub last_acked : Option String

abbrev pub empty : AgentReadyState
empty = record { last_sent = none; last_sent_at = none; last_acked = none }

pub data AgentReadySend : Type 0 where
  not_sent sent_same_payload sent_changed_payload : AgentReadySend

abbrev pub changed_payload : AgentReadySend → Bool
changed_payload sent_changed_payload = true
changed_payload _ = false

unfoldable pub record_agent_ready_sent :
    AgentReadyState → String → ℕ → AgentReadySend × AgentReadyState
record_agent_ready_sent state message now =
    let changed = not (is_text state.last_sent message) in
    (
      if changed then sent_changed_payload else sent_same_payload,
      record state {
        last_sent = some message;
        last_sent_at = some now;
        last_acked = if changed then none else state.last_acked;
      },
    )

unfoldable pub should_send_agent_ready : String → AgentReadyState → Bool → ℕ → Bool
should_send_agent_ready message state force now =
    if force
    then true
    else if is_text state.last_sent message && is_text state.last_acked message
    then false
    else if is_text state.last_sent message
        && sent_within state.last_sent_at now agent_ready_retry_interval
    then false
    else true

unfoldable pub acknowledge_agent_ready : AgentReadyState → String → AgentReadyState
acknowledge_agent_ready state message = record state {
  last_sent = some message;
  last_sent_at = none;
  last_acked = some message;
}

-- What a sending leaves: the message on the wire, if any, the outcome and the state.
pub record Sent : Type 0 where
  pub wire : Option String
  pub outcome : AgentReadySend
  pub state : AgentReadyState

-- `send_agent_ready` at a time, over a socket that takes the text or fails.
unfoldable pub send_agent_ready :
    Serde → (String → Bool) → AgentConfig → AgentReadyState → Bool → ℕ → Result Sent (Unit {0})
unfolding record_agent_ready_sent should_send_agent_ready
send_agent_ready serde socket config state force now =
    let message = agent_ready_message serde (capabilities config) in
    if not (should_send_agent_ready message state force now)
    then ok (record { wire = none; outcome = not_sent; state = state })
    else if not (socket message)
    then err tt
    else let (outcome, state') = record_agent_ready_sent state message now in
      ok (record { wire = some message; outcome = outcome; state = state' })

-- `apply_agent_ready_ack_text`: whether the text was an acknowledgement; an error where it is no
-- envelope.
unfoldable pub apply_agent_ready_ack_text :
    Serde → String → AgentReadyState → Result (Bool × AgentReadyState) (Unit {0})
unfolding acknowledge_agent_ready
apply_agent_ready_ack_text serde text state = elim (read_envelope serde text) [
  | none ↦ err tt
  | some envelope ↦ elim (agent_ready_ack_message serde envelope) [
    | none ↦ ok (false, state)
    | some message ↦ ok (true, acknowledge_agent_ready state message)
  ]
]
