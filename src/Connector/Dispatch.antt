-- ===== src/Connector/Dispatch.antt =====
-- The sending of a command's events (crates/agent/src/connector.rs), and the events of a command
-- that needs no execution (crates/agent/src/placeholder.rs). The socket and the wait for an
-- acknowledgement are parameters.
pub mod Order
mod Tests
use chaop.Base.{
  String, str_eq, ◌str++◌, Bool, true, false, not, ◌&&◌, Option, none, some, List, [], ◌∷◌,
  if◌then◌else◌, is_some_and, Result, ok, err,
}
use chaop.Json.{Value, string, object, Fields, field, end}
use chaop.Executor.{ConnectorEvent}
use chaop.Connector.Message.{message}

pub data CommandType : Type 0 where
  placeholder codex : CommandType

pub record CommandPayload : Type 0 where
  pub id : String
  pub command_type : CommandType
  pub prompt : String

abbrev plain : String → String → String → ConnectorEvent
plain kind priority summary = record {
  kind = kind;
  priority = priority;
  summary = summary;
  payload = none;
}

-- `str::trim` is a parameter.
unfoldable pub placeholder_event_stream : (String → String) → String → List ConnectorEvent
placeholder_event_stream trim prompt =
    plain "command.accepted" "P1" ("Accepted placeholder command: " str++ trim prompt)
    ∷ plain "command.started" "P1" "Connector acquired the placeholder lease."
    ∷ plain "command.output" "P2" "Summary stream is current; full log detail is deferred."
    ∷ plain "command.finished" "P1" "Placeholder command completed successfully."
    ∷ []

unfoldable pub command_events : (String → String) → CommandPayload → List ConnectorEvent
unfolding placeholder_event_stream
command_events trim command = elim command.command_type [
  | placeholder ↦ placeholder_event_stream trim command.prompt
  | codex ↦
      plain "command.started" "P1"
        "Connector received a Codex command, but the CLI fallback is disabled."
      ∷ plain "command.failed" "P1" "Codex CLI fallback is disabled in this connector config."
      ∷ []
]

abbrev with_field : String → Option Value → Fields → Fields
with_field key none fields = fields
with_field key (some v) fields = field key v fields

-- The session of the target goes with the event that starts the command only.
abbrev target_of : ConnectorEvent → Option String → Option Value
target_of event none = none
target_of event (some session_id) =
    if str_eq event.kind "command.started" then some (string session_id) else none

unfoldable pub agent_event_message : CommandPayload → ConnectorEvent → Option String → Value
agent_event_message command event target_host_session_id = message "agent.event" (
    object (
      field "command_id" (string command.id) (
        field "kind" (string event.kind) (
          with_field "payload" event.payload (
            field "priority" (string event.priority) (
              field "summary" (string event.summary) (
                with_field "target_host_session_id" (target_of event target_host_session_id)
                  end)))))))

-- The outside of a dispatch: a message that is sent or not, and the acknowledgement of an event of a
-- command, with its verdict.
pub record Wire : Type 1 where
  pub World : Type 0
  pub send : Value → World → Result (Unit {0}) String × World
  pub wait_for_ack : String → String → World → Result Bool String × World

module _ (wire : Wire) where
  -- The sending of one event and the wait for its acknowledgement.
  unfoldable pub exchange :
      CommandPayload → Option String → ConnectorEvent → wire.World → Result Bool String × wire.World
  unfolding agent_event_message
  exchange command target event w =
      if str_eq event.kind "command.accepted"
      then (ok true, w)
      else let (sent, w') = wire.send (agent_event_message command event target) w in
        elim sent [
          | err error ↦ (err error, w')
          | ok _ ↦ wire.wait_for_ack command.id event.kind w'
        ]

  -- `dispatch_events_for_target_host_session`, to the first event that is not accepted.
  unfoldable pub dispatch_events :
      CommandPayload
      → Option String
      → List ConnectorEvent
      → wire.World
      → Result Bool String × wire.World
  unfolding exchange
  dispatch_events command target [] w = (ok true, w)
  dispatch_events command target (event ∷ events) w =
      let (answer, w') = exchange command target event w in
      let rest = dispatch_events command target events w' in
      elim answer [
        | err error ↦ (err error, w')
        | ok accepted ↦ if accepted then rest else (ok false, w')
      ]
