-- ===== src/Connector/Waiting/Tests.antt =====
-- A wait for an acknowledgement (crates/agent/src/connector.rs) at a concrete list of messages.
use chaop.Base.{◌≡◌, refl, String, false, true, none, some, List, [], ◌∷◌, Result, ok, err}
use chaop.Json.{null, string, object, field, end, Serde}
use chaop.Connector.Message.{read_envelope}
use chaop.Connector.Replies.{Worker}
use chaop.Connector.Waiting.{Incoming, text_message, close, Surroundings, Waiting, wait_for_ack}
use chaop.Connector.Waiting.Deferred.{Grows, wait_for_ack-Grows}

-- Every text is the kind of its message, and no payload is a response.
abbrev kinds : Serde
kinds = record {
  to_string = λ v. "";
  from_str = λ s. some (object (field "kind" (string s) (field "payload" null end)));
  repeats_field = λ key s. false;
}

abbrev worker : Worker
worker = record { read_dispatch = λ v. none; deliver = λ d active. (true, active) }

abbrev next_message : List Incoming → Result Incoming String × List Incoming
next_message [] = (err "no message", [])
next_message (m ∷ ms) = (ok m, ms)

-- The world is the messages that are still to arrive.
abbrev around : Surroundings
around = record {
  World = List Incoming;
  shutdown_requested = λ w. (false, w);
  read = next_message;
  set_read_timeout = λ long w. (ok tt, w);
  send = λ m w. (ok tt, w);
  send_host_sessions = λ s w. (ok tt, (s, w));
  carry_out = λ kind payload s w. (ok tt, (s, w));
}

abbrev waiting : Waiting (List Incoming)
waiting = record {
  instances = record {
    last_sent = none;
    last_sent_id = none;
    last_sent_key = none;
    last_sent_snapshot = false;
    last_sent_at = none;
    last_acked = none;
    last_acked_id = none;
    last_acked_key = none;
    next_report_id = 0;
  };
  sessions = record { last_sent = none; last_sent_at = none; last_acked = none };
  deferred_messages = "command.cancel" ∷ [];
  active = record { poisoned = false; interaction = none };
  world = text_message "command.dispatch" ∷ close ∷ [];
}

deferred_behind :
    (wait_for_ack kinds worker around 5 none "c1" "command.started" waiting).1.deferred_messages
    ≡ "command.cancel" ∷ "command.dispatch" ∷ []
unfolding wait_for_ack read_envelope
deferred_behind = refl

wait_for_ack-Grows_example :
    Grows waiting (wait_for_ack kinds worker around 5 none "c1" "command.started" waiting).1
wait_for_ack-Grows_example =
    wait_for_ack-Grows kinds worker around 5 none "c1" "command.started" waiting
