-- ===== src/Connector/Message.antt =====
-- The messages of crates/agent/src/connector.rs that the send states are about, and the reading of
-- their acknowledgements. An `Instant` is a count of nanoseconds.
use chaop.Base.{
  ℕ, ◌*◌, ◌-◌, ltb, String, str_eq, Bool, not, ◌&&◌, ◌||◌, Option, none, some, List, [], ◌∷◌,
  if◌then◌else◌, is_some_and,
}
use chaop.Json.{Value, string, array, object, Items, nil, cons, end, field, Serde, get, as_str}

abbrev pub secs : ℕ → ℕ
secs n = n * 1000000000

abbrev pub agent_ready_retry_interval : ℕ
agent_ready_retry_interval = secs 10

abbrev pub host_sessions_retry_interval : ℕ
host_sessions_retry_interval = agent_ready_retry_interval

abbrev pub app_server_instance_summary_interval : ℕ
app_server_instance_summary_interval = secs 300

pub record Envelope : Type 0 where
  pub kind : String
  pub payload : Value

abbrev envelope_of : Option Value → Option Value → Option Envelope
envelope_of (some (string kind)) (some payload) = some (record { kind = kind; payload = payload })
envelope_of kind payload = none

-- `serde_json::from_str::<Envelope>`: both fields must be there, and `kind` must be a text; an array of
-- the two is read as well.
unfoldable pub envelope_of_value : Value → Option Envelope
unfolding get
envelope_of_value (array (cons kind (cons payload nil))) = envelope_of (some kind) (some payload)
envelope_of_value value = envelope_of (get "kind" value) (get "payload" value)

-- A text that repeats one of the two fields is an error; other fields are skipped.
unfoldable pub read_envelope : Serde → String → Option Envelope
unfolding envelope_of_value
read_envelope serde text = elim (serde.from_str text) [
  | none ↦ none
  | some v ↦
      if serde.repeats_field "kind" text || serde.repeats_field "payload" text
      then none
      else envelope_of_value v
]

-- A message: its kind and its payload.
abbrev pub message : String → Value → Value
message kind payload = object (field "kind" (string kind) (field "payload" payload end))

unfoldable pub strings : List String → Items
strings [] = nil
strings (x ∷ xs) = cons (string x) (strings xs)

-- The texts of an array; what is no text is left out.
unfoldable pub texts : Items → List String
texts nil = []
texts (cons (string s) rest) = s ∷ texts rest
texts (cons _ rest) = texts rest

unfoldable pub agent_ready_value : List String → Value
unfolding strings
agent_ready_value capabilities =
    message "agent.ready" (object (field "capabilities" (array (strings capabilities)) end))

unfoldable pub agent_ready_message : Serde → List String → String
unfolding agent_ready_value
agent_ready_message serde capabilities = serde.to_string (agent_ready_value capabilities)

-- An acknowledgement of the given kind.
abbrev pub acknowledges : String → Envelope → Bool
acknowledges kind envelope =
    str_eq envelope.kind "server.ack"
    && is_some_and (as_str (get "kind" envelope.payload)) (λ k. str_eq k kind)

abbrev texts_of : Option Value → Option (List String)
texts_of (some (array items)) = some (texts items)
texts_of v = none

-- `agent_ready_ack_message`: the message that the acknowledged capabilities would make.
unfoldable pub agent_ready_ack_message : Serde → Envelope → Option String
unfolding agent_ready_message texts get
agent_ready_ack_message serde envelope =
    if not (acknowledges "agent.ready" envelope)
    then none
    else elim (texts_of (get "capabilities" envelope.payload)) [
      | none ↦ none
      | some capabilities ↦ some (agent_ready_message serde capabilities)
    ]

unfoldable pub host_sessions_ack_message : Envelope → Bool
unfolding get
host_sessions_ack_message envelope = acknowledges "agent.host_sessions" envelope

-- `app_server_instances_ack_message`: the outer option tells an acknowledgement, the inner one is its
-- report id.
unfoldable pub app_server_instances_ack_message : Envelope → Option (Option String)
unfolding get
app_server_instances_ack_message envelope =
    if not (acknowledges "agent.app_server_instances" envelope)
    then none
    else some (as_str (get "report_id" envelope.payload))

-- `state.last_sent.as_deref() == Some(message)`, and the age of the last sending.
abbrev pub is_text : Option String → String → Bool
is_text o text = is_some_and o (λ s. str_eq s text)

abbrev pub sent_within : Option ℕ → ℕ → ℕ → Bool
sent_within last_sent_at now interval = is_some_and last_sent_at (λ at. ltb (now - at) interval)
