-- ===== src/Connector/Replies/Matching.antt =====
-- Which texts count as an acknowledgement, and which responses are delivered
-- (crates/agent/src/connector.rs).
use chaop.Base.{
  ◌≡◌, arith, String, str_eq, str_eq_iff, Bool, false, not, ◌&&◌, Option, none, some, if◌then◌else◌,
  Result, ok,
}
use chaop.Json.{Value, bool, string, object, field, end, Serde}
use chaop.Connector.Message.{message, read_envelope, is_text, Envelope}
use chaop.Connector.Replies.{
  TurnInteractionResponseDispatch, TurnInteractionResponseAck, ActiveInteraction, Worker, respond,
  turn_interaction_response_ack_for_text,
}

-- The control plane's acknowledgement of an event of a command.
abbrev pub event_ack : String → String → Bool → Value
event_ack command_id kind accepted = message "server.ack" (
    object (
      field "accepted" (bool accepted)
        (field "command_id" (string command_id) (field "kind" (string kind) end))))

-- The verdict that an answer carries, if it is an acknowledgement.
abbrev pub verdict : Result (Option TurnInteractionResponseAck) String → Option Bool
verdict (ok (some ack)) = some ack.accepted
verdict answer = none

-- A response to an interaction, which serde reads with a request id while the mutex is not poisoned,
-- is delivered exactly when it is for the command and the turn waits for its interaction. It is
-- acknowledged in every case, unless the mutex is poisoned when an acceptance is to clear it, and
-- accepted exactly when it was delivered and the worker took it. Then no interaction is awaited any
-- more, also where the worker set another one during the delivery; on a refusal the mutex is as the
-- delivery left it, and without a delivery as it was.
pub response_accepted :
    (serde : Serde) (worker : Worker) (text command_id request_id : String)
    (active : ActiveInteraction) (envelope : Envelope) (dispatch : TurnInteractionResponseDispatch)
    → read_envelope serde text ≡ some envelope
    → envelope.kind ≡ "turn.interaction_response"
    → worker.read_dispatch envelope.payload ≡ some dispatch
    → dispatch.request_id ≡ some request_id
    → active.poisoned ≡ false
    → let r = turn_interaction_response_ack_for_text serde worker text command_id active in
      let delivered =
        str_eq dispatch.command_id command_id
        && is_text active.interaction dispatch.interaction_id in
      let (taken, after) = worker.deliver dispatch active in
      (verdict r.0
        ≡ (if delivered && taken && after.poisoned then none else some (delivered && taken)))
      × (r.1 ≡ (
          if not delivered
          then active
          else if taken && not after.poisoned
          then record after { interaction = none }
          else after))
unfolding turn_interaction_response_ack_for_text respond
response_accepted serde worker text command_id request_id active envelope dispatch reads kind named
      asked free =
    ground (arith, str_eq_iff envelope.kind "turn.interaction_response")
