-- ===== src/Connector/Tests.antt =====
-- The send states of crates/agent/src/connector.rs at concrete inputs.
use chaop.Base.{
  ◌≡◌, ◌↔◌, refl, arith, String, Bool, true, false, none, some, [], ◌∷◌, ok, not, ltb, ◌-◌, str_eq,
  str_eq_iff, if◌then◌else◌,
}
use chaop.Config.{AgentConfig, capabilities, default_execution, default_session_inventory}
use chaop.Json.{null, Value, bool, string, array, nil, cons, Serde, get, find_field}
use chaop.Json.Codec.{codec, codec-RoundTrips}
use chaop.Manager.Types.{AppServerInstanceSnapshot}
use chaop.Connector.Message.{
  agent_ready_message, read_envelope, envelope_of_value, secs, message,
  app_server_instance_summary_interval, agent_ready_retry_interval,
}
use chaop.Connector.Ready.{
  empty, Sent, send_agent_ready, should_send_agent_ready, record_agent_ready_sent,
  sent_changed_payload,
}
use chaop.Connector.Ready.Retry.{ready_resends, ready_ack}
use chaop.Connector.Replies.{
  TurnInteractionResponseDispatch, ActiveInteraction, Worker,
  turn_interaction_response_ack_for_text,
}
use chaop.Connector.Replies.Matching.{verdict, response_accepted}
use chaop.Connector.Instances.{
  AppServerInstancesSendState, sent_state, send_report, send_app_server_instances,
  app_server_instances_value, app_server_instances_message_key,
  app_server_instances_message_with_report_id, should_send_app_server_instances,
  has_unacked_snapshot_for_key, acknowledge_app_server_instances, next_report_id, instance_value,
  key_value, rewrite_message,
}
use chaop.Connector.Instances.Report.{Fits, report, report-canonical}
use chaop.Connector.Instances.Key.{key_tells_instance}
use chaop.Connector.Instances.Resend.{ack_slows, snapshot_resent}

abbrev config : AgentConfig
config = record {
  connector_name = "c";
  control_url = "wss://control";
  bootstrap_url = "https://control";
  workspace_root = "/w";
  token_file = "/t";
  spool_db = "/s";
  bootstrap_secret_file = "/b";
  execution = default_execution;
  session_inventory = default_session_inventory;
}

abbrev takes : String → Bool
takes text = true

abbrev announcement : String
announcement = agent_ready_message codec (capabilities config)

abbrev sent : Sent
sent = record {
  wire = some announcement;
  outcome = sent_changed_payload;
  state = record { last_sent = some announcement; last_sent_at = some 5; last_acked = none };
}

-- Twelve seconds later the announcement is due again.
ready_resends_example : should_send_agent_ready announcement sent.state false (secs 12) ≡ true
unfolding send_agent_ready record_agent_ready_sent should_send_agent_ready
ready_resends_example =
    ready_resends codec takes config empty false 5 (secs 12) sent announcement refl refl

-- A crate that reads every text as one acknowledgement.
abbrev fixed : Serde
fixed = record {
  to_string = λ v. "m";
  from_str = λ text. some (ready_ack ("a" ∷ []));
  repeats_field = λ key text. false;
}

abbrev unsent : AppServerInstancesSendState
unsent = record {
  last_sent = none;
  last_sent_id = none;
  last_sent_key = none;
  last_sent_snapshot = false;
  last_sent_at = none;
  last_acked = none;
  last_acked_id = none;
  last_acked_key = none;
  next_report_id = 6;
}

abbrev reported : AppServerInstancesSendState
reported = sent_state (next_report_id unsent).1 "report" (next_report_id unsent).0 "key" false 5

-- An acknowledgement of another report leaves the retry after ten seconds.
ack_slows_example :
    (id : String) × (reported.last_sent_id ≡ some id)
    × (should_send_app_server_instances "key"
          (acknowledge_app_server_instances reported (some "old"))
          false
          (secs 20)
        ≡ not (
            ltb (secs 20 - 5) (
              if str_eq id "old"
              then app_server_instance_summary_interval
              else agent_ready_retry_interval)))
unfolding send_report next_report_id app_server_instances_message_with_report_id rewrite_message
ack_slows_example =
    ack_slows fixed takes "report" "key" "m" false unsent reported 5 (secs 20) (some "old") refl

abbrev instance : AppServerInstanceSnapshot
instance = record {
  instance_key = "default";
  scope = "host";
  endpoint_type = "unix";
  state = "healthy";
  last_error = none;
  status_summary = none;
  active_turn_count = 1;
  generation = 2;
}

instance-Fits : Fits instance
instance-Fits = record { turns_fit = omega arith; generation_fits = omega arith }

-- The same instance a turn later.
abbrev busier : AppServerInstanceSnapshot
busier = record instance { active_turn_count = 2 }

busier-Fits : Fits busier
busier-Fits = record { turns_fit = omega arith; generation_fits = omega arith }

key_tells_instance_example :
    (numbered : String) × (k : String) × (l : String) × (app_server_instances_message_with_report_id
        codec
        (codec.to_string (report instance true))
        "r"
      ≡ ok numbered)
    × (app_server_instances_message_key codec (codec.to_string (report instance true)) ≡ ok k)
    × (app_server_instances_message_key codec numbered ≡ ok k)
    × (app_server_instances_message_key codec (codec.to_string (report busier false)) ≡ ok l)
    × ((k ≡ l) ↔ (instance_value instance ≡ instance_value busier))
unfolding app_server_instances_value
key_tells_instance_example =
    key_tells_instance codec instance busier true false "r" (report instance true)
      (report busier false) codec-RoundTrips instance-Fits busier-Fits refl refl

abbrev value : Value
value = report instance false

abbrev key : String
key = codec.to_string (key_value value)

abbrev waiting : AppServerInstancesSendState
waiting = record unsent {
  last_sent_snapshot = true;
  last_sent_key = some key;
  last_sent_id = some "r";
}

value-key : app_server_instances_message_key codec (codec.to_string value) ≡ ok key
unfolding app_server_instances_message_key rewrite_message
value-key = ground (arith, codec-RoundTrips value (report-canonical instance false instance-Fits))

waiting-unacked : has_unacked_snapshot_for_key waiting key ≡ true
unfolding has_unacked_snapshot_for_key
waiting-unacked = ground (arith, str_eq_iff key key)

snapshot_resent_example :
    (wire : String) × (state' : AppServerInstancesSendState) × (sent : Value) × (payload : Value)
    × (id : String) × (send_app_server_instances codec
          (λ text. true)
          (some instance)
          waiting
          false
          false
          3
        ≡ (ok (some wire), state'))
    × (codec.from_str wire ≡ some sent)
    × (get "kind" sent ≡ some (string "agent.app_server_instances"))
    × (get "payload" sent ≡ some payload)
    × (get "instances" payload ≡ some (array (cons (instance_value instance) nil)))
    × (get "snapshot" payload ≡ some (bool true))
    × (get "report_id" payload ≡ some (string id))
    × (state'.last_sent_id ≡ some id)
    × (has_unacked_snapshot_for_key state' key ≡ true)
unfolding app_server_instances_value should_send_app_server_instances
snapshot_resent_example =
    snapshot_resent codec instance waiting value key 3 codec-RoundTrips instance-Fits refl value-key
      waiting-unacked (ground (arith, str_eq_iff key key))

abbrev response : TurnInteractionResponseDispatch
response = record { request_id = some "r1"; command_id = "c1"; interaction_id = "i1" }

-- The worker takes every response, forgets its interaction, and waits for another one at once.
abbrev worker : Worker
worker = record {
  read_dispatch = λ payload. some response;
  deliver = λ dispatch active. (true, record active { interaction = some "i2" });
}

-- A crate that reads every text as one response.
abbrev responds : Serde
responds = record {
  to_string = λ v. "m";
  from_str = λ text. some (message "turn.interaction_response" null);
  repeats_field = λ key text. false;
}

abbrev awaits : ActiveInteraction
awaits = record { poisoned = false; interaction = some "i1" }

response_accepted_example :
    let r = turn_interaction_response_ack_for_text responds worker "m" "c1" awaits in
    (verdict r.0 ≡ some true) × (r.1 ≡ record { poisoned = false; interaction = none })
unfolding read_envelope envelope_of_value get find_field
response_accepted_example =
    response_accepted responds worker "m" "c1" "r1" awaits
      (record { kind = "turn.interaction_response"; payload = null }) response refl refl refl refl
      refl
