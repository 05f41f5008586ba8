-- ===== src/Connector/Instances.antt =====
-- The report of the app-server instance (crates/agent/src/connector.rs): its text, the key by which
-- two reports count as the same, and when it is sent again.
pub mod Text
pub mod Report
pub mod Key
pub mod Resend
use chaop.Base.{
  ℕ, zero, suc, ◌+◌, ◌-◌, ◌/◌, ◌%◌, ltb, leb, ◌==◌, String, str_eq, ◌str++◌, Bool, true, false, not,
  ◌&&◌, ◌||◌, Option, none, some, if◌then◌else◌, is_some, is_some_and, unwrap_or, Result, ok, err,
  saturating_add, u64_max,
}
use chaop.Json.{
  Value, null, bool, number, string, array, object, Items, nil, cons, Fields, end, field, Serde,
  get, set, insert_field, remove_field, find_field,
}
use chaop.Manager.Types.{AppServerInstanceSnapshot}
use chaop.Connector.Message.{
  message, app_server_instances_ack_message, read_envelope, is_text, sent_within,
  agent_ready_retry_interval, app_server_instance_summary_interval,
}
use Text.{bounded_app_server_instance_text, decimal}

pub record AppServerInstancesSendState : Type 0 where
  pub last_sent : Option String
  pub last_sent_id : Option String
  pub last_sent_key : Option String
  pub last_sent_snapshot : Bool
  pub last_sent_at : Option ℕ
  pub last_acked : Option String
  pub last_acked_id : Option String
  pub last_acked_key : Option String
  pub next_report_id : ℕ

-- `if let Some(text) = … { payload[key] = json!(bounded(text)) }`.
abbrev with_text : String → Option String → Value → Value
with_text key none v = v
with_text key (some text) v = set key (string (bounded_app_server_instance_text text)) v

unfoldable pub instance_value : AppServerInstanceSnapshot → Value
unfolding set
instance_value i = with_text "last_error" i.last_error (
    with_text "status_summary" i.status_summary (
      object (
        field "active_turn_count" (number i.active_turn_count) (
          field "endpoint_type" (string i.endpoint_type) (
            field "generation" (number i.generation) (
              field "instance_key" (string i.instance_key)
                (field "scope" (string i.scope) (field "state" (string i.state) end))))))))

-- `app_server_instances_message`: without an instance only a snapshot is worth a message.
unfoldable pub app_server_instances_value : Option AppServerInstanceSnapshot → Bool → Option Value
unfolding instance_value
app_server_instances_value instance snapshot = elim instance [
  | some i ↦ some (report (cons (instance_value i) nil))
  | none ↦ if snapshot then some (report nil) else none
]
  where
    report : Items → Value
    report instances =
        message "agent.app_server_instances"
          (object (field "instances" (array instances) (field "snapshot" (bool snapshot) end)))

-- `value["payload"][key] = …` on a text, and the text again.
unfoldable pub set_in_payload : String → Value → Value → Value
unfolding get set
set_in_payload key v value = set "payload" (set key v (unwrap_or (get "payload" value) null)) value

unfoldable pub rewrite_message : Serde → (Value → Value) → String → Result String (Unit {0})
rewrite_message serde f text = elim (serde.from_str text) [
  | none ↦ err tt
  | some value ↦ ok (serde.to_string (f value))
]

unfoldable pub app_server_instances_message_with_report_id :
    Serde → String → String → Result String (Unit {0})
unfolding rewrite_message set_in_payload
app_server_instances_message_with_report_id serde message report_id =
    rewrite_message serde (set_in_payload "report_id" (string report_id)) message

unfoldable pub app_server_instances_message_with_snapshot :
    Serde → String → Bool → Result String (Unit {0})
unfolding rewrite_message set_in_payload
app_server_instances_message_with_snapshot serde message snapshot =
    rewrite_message serde (set_in_payload "snapshot" (bool snapshot)) message

-- The key of a report: the message without what differs between two sendings of one state.
abbrev strip_payload : Option Value → Value → Value
strip_payload (some (object fields)) value =
    set "payload" (object (remove_field "snapshot" (remove_field "report_id" fields))) value
strip_payload payload value = value

unfoldable pub key_value : Value → Value
unfolding get set remove_field
key_value value = strip_payload (get "payload" value) value

unfoldable pub app_server_instances_message_key : Serde → String → Result String (Unit {0})
unfolding rewrite_message key_value
app_server_instances_message_key serde message = rewrite_message serde key_value message

unfoldable pub should_send_app_server_instances :
    String → AppServerInstancesSendState → Bool → ℕ → Bool
should_send_app_server_instances key state force now =
    if force
    then true
    else if is_text state.last_acked_key key
    then not (sent_within state.last_sent_at now app_server_instance_summary_interval)
    else if is_text state.last_sent_key key
        && sent_within state.last_sent_at now agent_ready_retry_interval
    then false
    else true

unfoldable pub next_report_id : AppServerInstancesSendState → String × AppServerInstancesSendState
next_report_id state =
    let n = saturating_add u64_max state.next_report_id 1 in
    ("app-server-report-" str++ decimal n, record state { next_report_id = n })

abbrev same_option : Option String → Option String → Bool
same_option none none = true
same_option none (some b) = false
same_option (some a) none = false
same_option (some a) (some b) = str_eq a b

unfoldable pub has_unacked_snapshot_for_key : AppServerInstancesSendState → String → Bool
has_unacked_snapshot_for_key state key =
    state.last_sent_snapshot
    && is_text state.last_sent_key key
    && is_some state.last_sent_id
    && not (same_option state.last_acked_id state.last_sent_id)

-- `acknowledge_app_server_instances`: a report id that is not the last one sent is stale.
unfoldable pub acknowledge_app_server_instances :
    AppServerInstancesSendState → Option String → AppServerInstancesSendState
acknowledge_app_server_instances state report_id =
    if is_some_and report_id (λ id. not (is_text state.last_sent_id id))
    then state
    else elim state.last_sent [
      | none ↦ state
      | some message ↦ record state {
        last_acked = some message;
        last_acked_id = state.last_sent_id;
        last_acked_key = state.last_sent_key;
      }
    ]

unfoldable pub apply_app_server_instances_ack_text :
    Serde
    → String
    → AppServerInstancesSendState
    → Result (Bool × AppServerInstancesSendState) (Unit {0})
unfolding acknowledge_app_server_instances
apply_app_server_instances_ack_text serde text state = elim (read_envelope serde text) [
  | none ↦ err tt
  | some envelope ↦ elim (app_server_instances_ack_message envelope) [
    | none ↦ ok (false, state)
    | some report_id ↦ ok (true, acknowledge_app_server_instances state report_id)
  ]
]

abbrev pub sent_state :
    AppServerInstancesSendState → String → String → String → Bool → ℕ → AppServerInstancesSendState
sent_state state message id key snapshot now = record state {
  last_sent = some message;
  last_sent_id = some id;
  last_sent_key = some key;
  last_sent_snapshot = snapshot;
  last_sent_at = some now;
  last_acked = none;
  last_acked_id = none;
  last_acked_key = none;
}

-- The outcome of `send_app_server_instances`, the text on the wire if there is one, and the state that
-- it leaves, on an error too.
abbrev pub Outcome : Type 0
Outcome = Result (Option String) (Unit {0}) × AppServerInstancesSendState

-- The end of `send_app_server_instances`, with the text to send and its key: the report is numbered
-- even if the socket then fails.
unfoldable pub send_report :
    Serde → (String → Bool) → String → String → Bool → AppServerInstancesSendState → ℕ → Outcome
unfolding next_report_id
send_report serde socket message key snapshot state now =
    let (id, numbered) = next_report_id state in
    elim (app_server_instances_message_with_report_id serde message id) [
      | err e ↦ (err tt, numbered)
      | ok outbound ↦
          if not (socket outbound)
          then (err tt, numbered)
          else (ok (some outbound), sent_state numbered message id key snapshot now)
    ]

-- The middle of `send_app_server_instances`, with the message and its key: a snapshot that was not
-- acknowledged goes out as a snapshot again.
unfoldable pub send_keyed :
    Serde
    → (String → Bool)
    → String
    → String
    → AppServerInstancesSendState
    → (force snapshot : Bool) → (now : ℕ) → Outcome
unfolding send_report
send_keyed serde socket message key state force snapshot now =
    let upgrade = not snapshot && has_unacked_snapshot_for_key state key in
    elim (if upgrade
      then app_server_instances_message_with_snapshot serde message true
      else ok message) [
        | err e ↦ (err tt, state)
        | ok text ↦
            if not (should_send_app_server_instances key state force now)
            then (ok none, state)
            else send_report serde socket text key (snapshot || upgrade) state now
      ]

-- `send_app_server_instances`, given the manager's snapshot of its instance.
unfoldable pub send_app_server_instances :
    Serde
    → (String → Bool)
    → Option AppServerInstanceSnapshot
    → AppServerInstancesSendState
    → (force snapshot : Bool) → (now : ℕ) → Outcome
unfolding send_keyed
send_app_server_instances serde socket instance state force snapshot now =
    elim (app_server_instances_value instance snapshot) [
      | none ↦ (ok none, state)
      | some value ↦
          let message = serde.to_string value in
          elim (app_server_instances_message_key serde message) [
            | err e ↦ (err tt, state)
            | ok key ↦ send_keyed serde socket message key state force snapshot now
          ]
    ]
