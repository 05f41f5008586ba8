-- ===== src/Connector/Replies.antt =====
-- The replies that the connector waits for (crates/agent/src/connector.rs): how a text is told to be
-- the acknowledgement of an event, and what a response to an interaction of a turn does.
pub mod Matching
use chaop.Base.{
  String, str_eq, Bool, true, false, not, ◌&&◌, Option, none, some, unwrap_or, if◌then◌else◌,
  is_some_and, Result, ok, err,
}
use chaop.Json.{Value, Serde, get, as_str, as_bool}
use chaop.Connector.Message.{Envelope, read_envelope, is_text}

pub data AckWaitAction : Type 0 where
  matched : Bool → AckWaitAction
  host_sessions_refresh defer : AckWaitAction

unfoldable pub classify_ack_wait_text :
    Serde → String → String → String → Result AckWaitAction (Unit {0})
unfolding get
classify_ack_wait_text serde text command_id event_kind = elim (read_envelope serde text) [
  | none ↦ err tt
  | some envelope ↦ ok (
      if str_eq envelope.kind "host_sessions.refresh"
      then host_sessions_refresh
      else if str_eq envelope.kind "server.ack"
          && is_text (as_str (get "command_id" envelope.payload)) command_id
          && is_text (as_str (get "kind" envelope.payload)) event_kind
      then matched (unwrap_or (as_bool (get "accepted" envelope.payload)) true)
      else defer)
]

-- What serde reads of the payload of a response, beside the response itself.
pub record TurnInteractionResponseDispatch : Type 0 where
  pub request_id : Option String
  pub command_id : String
  pub interaction_id : String

pub record TurnInteractionResponseAck : Type 0 where
  pub request_id : String
  pub accepted : Bool
  pub error : Option String

-- The mutex over the id of the interaction that the turn waits for.
pub record ActiveInteraction : Type 0 where
  pub poisoned : Bool
  pub interaction : Option String

-- The outside of a response: serde's reading of the payload, and the delivery to the worker of the
-- turn. A delivery says whether the worker took it and answered with an acceptance in ten seconds, and
-- gives the mutex as it is at that moment: the worker shares it, forgets the interaction before it
-- answers, whatever the answer, and may wait for another one by then.
pub record Worker : Type 0 where
  pub read_dispatch : Value → Option TurnInteractionResponseDispatch
  pub deliver : TurnInteractionResponseDispatch → ActiveInteraction → Bool × ActiveInteraction

abbrev rejected : String → String → TurnInteractionResponseAck
rejected request_id why = record { request_id = request_id; accepted = false; error = some why }

-- `clear_active_turn_interaction` behind an acceptance.
abbrev pub clear_accepted :
    TurnInteractionResponseAck
    → ActiveInteraction
    → Result TurnInteractionResponseAck String × ActiveInteraction
clear_accepted ack active =
    if active.poisoned
    then (err "turn interaction state lock poisoned", active)
    else (ok ack, record active { interaction = none })

-- A response that is for this command: it is delivered only if the turn waits for its interaction.
-- An acceptance clears whatever the mutex holds after the delivery; a refusal leaves it.
unfoldable pub respond :
    Worker
    → TurnInteractionResponseDispatch
    → String
    → ActiveInteraction
    → Result TurnInteractionResponseAck String × ActiveInteraction
respond worker dispatch request_id active =
    if active.poisoned
    then (err "turn interaction state lock poisoned", active)
    else if not (is_text active.interaction dispatch.interaction_id)
    then (ok (rejected request_id "App-server turn is not waiting for this interaction"), active)
    else let (accepted, after) = worker.deliver dispatch active in
      if accepted
      then clear_accepted (record { request_id = request_id; accepted = true; error = none }) after
      else (
        ok (rejected request_id "App-server turn is no longer waiting for this interaction"),
        after,
      )

abbrev some_ack :
    Result TurnInteractionResponseAck String × ActiveInteraction
    → Result (Option TurnInteractionResponseAck) String × ActiveInteraction
some_ack (ok ack, active) = (ok (some ack), active)
some_ack (err e, active) = (err e, active)

unfoldable pub turn_interaction_response_ack_for_text :
    Serde
    → Worker
    → String
    → String
    → ActiveInteraction
    → Result (Option TurnInteractionResponseAck) String × ActiveInteraction
unfolding respond
turn_interaction_response_ack_for_text serde worker text command_id active =
    elim (read_envelope serde text) [
      | none ↦ (err "invalid message", active)
      | some envelope ↦
          if not (str_eq envelope.kind "turn.interaction_response")
          then (ok none, active)
          else elim (worker.read_dispatch envelope.payload) [
            | none ↦ (err "invalid message", active)
            | some dispatch ↦ elim dispatch.request_id [
              | none ↦ (err "turn interaction response did not include request_id", active)
              | some request_id ↦
                  if str_eq dispatch.command_id command_id
                  then some_ack (respond worker dispatch request_id active)
                  else (
                    ok (
                        some (
                          rejected request_id
                            "Turn interaction response targeted a different command")),
                    active,
                  )
            ]
          ]
    ]
