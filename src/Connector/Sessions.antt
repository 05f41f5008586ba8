-- ===== src/Connector/Sessions.antt =====
-- The report of the host's sessions (crates/agent/src/connector.rs): when it is sent again, and what
-- an acknowledgement changes. The report's text is given; the inventory makes it.
pub mod Retry
use chaop.Base.{
  ℕ, String, Bool, true, false, not, ◌&&◌, Option, none, some, if◌then◌else◌, Result, ok, err,
}
use chaop.Json.{Serde}
use chaop.Connector.Message.{
  host_sessions_ack_message, read_envelope, is_text, sent_within, host_sessions_retry_interval,
}

pub record HostSessionsSendState : Type 0 where
  pub last_sent : Option String
  pub last_sent_at : Option ℕ
  pub last_acked : Option String

unfoldable pub should_send_host_sessions : String → HostSessionsSendState → Bool → ℕ → Bool
should_send_host_sessions message state force now =
    if force
    then true
    else if is_text state.last_acked message
    then false
    else if is_text state.last_sent message
        && sent_within state.last_sent_at now host_sessions_retry_interval
    then false
    else true

-- `send_host_sessions_with_scope` once the report is rendered: the text on the wire and the state.
unfoldable pub send_host_sessions_message :
    (String → Bool)
    → String
    → HostSessionsSendState
    → Bool
    → ℕ
    → Result (Option String × HostSessionsSendState) (Unit {0})
unfolding should_send_host_sessions
send_host_sessions_message socket message state force now =
    if not (should_send_host_sessions message state force now)
    then ok (none, state)
    else if not (socket message)
    then err tt
    else ok (
      some message,
      record { last_sent = some message; last_sent_at = some now; last_acked = none },
    )

unfoldable pub acknowledge_host_sessions : HostSessionsSendState → HostSessionsSendState
acknowledge_host_sessions state = elim state.last_sent [
  | none ↦ state
  | some message ↦ record state { last_sent_at = none; last_acked = some message }
]

unfoldable pub apply_host_sessions_ack_text :
    Serde → String → HostSessionsSendState → Result (Bool × HostSessionsSendState) (Unit {0})
unfolding acknowledge_host_sessions
apply_host_sessions_ack_text serde text state = elim (read_envelope serde text) [
  | none ↦ err tt
  | some envelope ↦
      if not (host_sessions_ack_message envelope)
      then ok (false, state)
      else ok (true, acknowledge_host_sessions state)
]
