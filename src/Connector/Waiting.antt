-- ===== src/Connector/Waiting.antt =====
-- The wait for the acknowledgement of an event, and what it does with the other messages that arrive
-- meanwhile (crates/agent/src/connector.rs). The socket, the shutdown flag and the requests that are
-- carried out, each of which may send on the socket, are parameters over a world.
pub mod Deferred
mod Tests
use chaop.Base.{
  ℕ, zero, suc, String, str_eq, Bool, true, false, ◌||◌, Option, none, some, List, [], ◌∷◌, ◌++◌,
  if◌then◌else◌, Result, ok, err,
}
use chaop.Json.{Value, Serde}
use chaop.Executor.{ConnectorEvent}
use chaop.Connector.Message.{
  Envelope, read_envelope, host_sessions_ack_message, app_server_instances_ack_message,
}
use chaop.Connector.Sessions.{HostSessionsSendState, acknowledge_host_sessions}
use chaop.Connector.Instances.{AppServerInstancesSendState, acknowledge_app_server_instances}
use chaop.Connector.Replies.{
  AckWaitAction, matched, host_sessions_refresh, defer, classify_ack_wait_text, ActiveInteraction,
  Worker, TurnInteractionResponseAck, turn_interaction_response_ack_for_text,
}

pub data Incoming : Type 0 where
  text_message : String → Incoming
  ping : String → Incoming
  close other_message : Incoming

pub data Outgoing : Type 0 where
  pong : String → Outgoing
  response_ack : TurnInteractionResponseAck → Outgoing

abbrev pub Outcome : Type 0
Outcome = Result (Unit {0}) String

pub record Surroundings : Type 1 where
  pub World : Type 0
  pub shutdown_requested : World → Bool × World
  pub read : World → Result Incoming String × World
  -- the ten seconds of a wait, and the tick of the connector
  pub set_read_timeout : Bool → World → Outcome × World
  pub send : Outgoing → World → Outcome × World
  pub send_host_sessions : HostSessionsSendState → World → Outcome × (HostSessionsSendState × World)
  -- the four kinds of request, by kind and payload
  pub carry_out :
      String → Value → HostSessionsSendState → World → Outcome × (HostSessionsSendState × World)

pub record Waiting (World : Type 0) : Type 0 where
  pub instances : AppServerInstancesSendState
  pub sessions : HostSessionsSendState
  pub deferred_messages : List String
  pub active : ActiveInteraction
  pub world : World

abbrev acknowledged_instances : {W : Type 0} → Option String → Waiting W → Waiting W
acknowledged_instances report_id st = record st {
  instances = acknowledge_app_server_instances st.instances report_id;
}

abbrev acknowledged_sessions : {W : Type 0} → Waiting W → Waiting W
acknowledged_sessions st = record st { sessions = acknowledge_host_sessions st.sessions }

abbrev pub ack_or : {W : Type 0} → Option (Option String) → Bool → Waiting W → Option (Waiting W)
ack_or (some report_id) of_sessions st = some (acknowledged_instances report_id st)
ack_or none true st = some (acknowledged_sessions st)
ack_or none false st = none

-- The state behind an acknowledgement, or nothing where the message is none.
unfoldable pub handle_background_ack_message :
    {W : Type 0} → Envelope → Waiting W → Option (Waiting W)
unfolding app_server_instances_ack_message host_sessions_ack_message
    acknowledge_app_server_instances acknowledge_host_sessions
handle_background_ack_message envelope st =
    ack_or (app_server_instances_ack_message envelope) (host_sessions_ack_message envelope) st

abbrev pub is_request : String → Bool
is_request kind =
    str_eq kind "thread.create"
    || str_eq kind "host_session.backfill"
    || str_eq kind "host_session.app_server_ensure"
    || str_eq kind "thread.archive_sync"

abbrev pub deferred : {W : Type 0} → String → Waiting W → Waiting W
deferred text st = record st { deferred_messages = st.deferred_messages ++ (text ∷ []) }

-- How a wait goes on after a message, or ends.
pub data Next : Type 0 where
  goes_on : Next
  ends : Result Bool String → Next

abbrev pub after : {W : Type 0} → Outcome × Waiting W → Next × Waiting W
after (ok _, st) = (goes_on, st)
after (err e, st) = (ends (err e), st)

module _ (serde : Serde) (worker : Worker) (around : Surroundings) where
  abbrev pub State : Type 0
  State = Waiting around.World

  abbrev pub with_sessions :
      State → Outcome × (HostSessionsSendState × around.World) → Outcome × State
  with_sessions st (outcome, (sessions, world)) =
      (outcome, record st { sessions = sessions; world = world })

  abbrev pub with_world : State → Outcome × around.World → Outcome × State
  with_world st (outcome, world) = (outcome, record st { world = world })

  abbrev pub refresh : State → Outcome × State
  refresh st = with_sessions st (around.send_host_sessions st.sessions st.world)

  abbrev pub or_request : String → Envelope → State → Option State → Outcome × State
  or_request text envelope st (some acknowledged) = (ok tt, acknowledged)
  or_request text envelope st none =
      if is_request envelope.kind
      then with_sessions st (around.carry_out envelope.kind envelope.payload st.sessions st.world)
      else (ok tt, deferred text st)

  abbrev pub background : String → Option Envelope → State → Outcome × State
  background text none st = (err "invalid message", st)
  background text (some envelope) st =
      if str_eq envelope.kind "host_sessions.refresh"
      then refresh st
      else or_request text envelope st (handle_background_ack_message envelope st)

  unfoldable pub handle_background_text_message : String → State → Outcome × State
  unfolding handle_background_ack_message
  handle_background_text_message text st = background text (read_envelope serde text) st

  -- Whether the text was a response to an interaction, which is acknowledged.
  abbrev pub acknowledge_response :
      String
      → State
      → Result (Option TurnInteractionResponseAck) String × ActiveInteraction
      → Outcome × State
  acknowledge_response text st (err e, active) = (err e, record st { active = active })
  acknowledge_response text st (ok none, active) =
      handle_background_text_message text (record st { active = active })
  acknowledge_response text st (ok (some ack), active) =
      with_world (record st { active = active }) (around.send (response_ack ack) st.world)

  -- A message that is not the one waited for; a turn has the id of its command.
  unfoldable pub defer_text : Option String → String → State → Outcome × State
  unfolding handle_background_text_message turn_interaction_response_ack_for_text
  defer_text none text st = handle_background_text_message text st
  defer_text (some turn) text st =
      acknowledge_response text st
        (turn_interaction_response_ack_for_text serde worker text turn st.active)

  -- The end of a wait that sets the socket's time-out back.
  abbrev pub ended : Result Bool String → Outcome × State → Next × State
  ended result (ok _, st) = (ends result, st)
  ended result (err e, st) = (ends (err e), st)

  abbrev pub restored : Result Bool String → State → Next × State
  restored result st = ended result (with_world st (around.set_read_timeout false st.world))

  abbrev pub act_on :
      Option String → String → Result AckWaitAction (Unit {0}) → State → Next × State
  act_on turn text (err e) st = (ends (err "invalid message"), st)
  act_on turn text (ok (matched accepted)) st = restored (ok accepted) st
  act_on turn text (ok host_sessions_refresh) st = after (refresh st)
  act_on turn text (ok defer) st = after (defer_text turn text st)

  abbrev pub receive_message :
      Option String → String → String → Result Incoming String → State → Next × State
  receive_message turn command_id event_kind (err e) st = (ends (err e), st)
  receive_message turn command_id event_kind (ok (text_message text)) st =
      act_on turn text (classify_ack_wait_text serde text command_id event_kind) st
  receive_message turn command_id event_kind (ok (ping payload)) st =
      after (with_world st (around.send (pong payload) st.world))
  receive_message turn command_id event_kind (ok close) st =
      restored (err "connection closed before command acknowledgement") st
  receive_message turn command_id event_kind (ok other_message) st = (goes_on, st)

  abbrev pub unless_shutdown :
      Option String → String → String → State → Bool × around.World → Next × State
  unless_shutdown turn command_id event_kind st (true, world) =
      restored (err "connector shutdown requested before command acknowledgement")
        (record st { world = world })
  unless_shutdown turn command_id event_kind st (false, world) =
      let (incoming, world') = around.read world in
      receive_message turn command_id event_kind incoming (record st { world = world' })

  -- One round of the loop.
  unfoldable pub wait_round : Option String → String → String → State → Next × State
  unfolding classify_ack_wait_text defer_text
  wait_round turn command_id event_kind st =
      unless_shutdown turn command_id event_kind st (around.shutdown_requested st.world)

  abbrev pub continued : Next → State → Next × State → Next × State
  continued goes_on st later = later
  continued (ends result) st later = (ends result, st)

  -- The loop, on as many rounds as are given; it has no bound of its own, and `goes_on` says that it has
  -- not ended by then.
  unfoldable pub wait_loop : ℕ → Option String → String → String → State → Next × State
  unfolding wait_round
  wait_loop zero turn command_id event_kind st = (goes_on, st)
  wait_loop (suc rounds) turn command_id event_kind st =
      let (next, st') = wait_round turn command_id event_kind st in
      let later = wait_loop rounds turn command_id event_kind st' in continued next st' later

  abbrev pub begun : ℕ → Option String → String → String → Outcome × State → Next × State
  begun rounds turn command_id event_kind (err e, st) = (ends (err e), st)
  begun rounds turn command_id event_kind (ok _, st) =
      wait_loop rounds turn command_id event_kind st

  unfoldable pub wait_for_ack : ℕ → Option String → String → String → State → Next × State
  unfolding wait_loop
  wait_for_ack rounds turn command_id event_kind st =
      begun rounds turn command_id event_kind
        (with_world st (around.set_read_timeout true st.world))
