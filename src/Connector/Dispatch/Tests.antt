-- ===== src/Connector/Dispatch/Tests.antt =====
-- The dispatch of events (crates/agent/src/connector.rs) over a wire that keeps what it is sent and
-- rejects one kind of event.
use chaop.Base.{◌≡◌, refl, str_eq, not, none, List, [], ◌∷◌, ◌++◌, ok, false}
use chaop.Json.{Value}
use chaop.Executor.{ConnectorEvent}
use chaop.Connector.Dispatch.{
  CommandPayload, placeholder, Wire, placeholder_event_stream, dispatch_events, exchange,
}
use chaop.Connector.Dispatch.Order.{Ended, dispatch_ends}

-- Every event is accepted but the output.
abbrev log : Wire
log = record {
  World = List Value;
  send = λ message w. (ok tt, w ++ (message ∷ []));
  wait_for_ack = λ id kind w. (ok (not (str_eq kind "command.output")), w);
}

abbrev command : CommandPayload
command = record { id = "c1"; command_type = placeholder; prompt = " check " }

abbrev stream : List ConnectorEvent
stream = placeholder_event_stream (λ s. s) "check"

rejected_output : (dispatch_events log command none stream []).0 ≡ ok false
unfolding dispatch_events exchange placeholder_event_stream
rejected_output = refl

dispatch_ends_example :
    Ended log command none stream [] (dispatch_events log command none stream [])
dispatch_ends_example = dispatch_ends log command none stream []
