-- ===== src/Connector/Instances/Resend.antt =====
-- When a report of the app-server instance is sent again, and what its acknowledgement changes
-- (crates/agent/src/connector.rs).
use chaop.Base.{
  ℕ, ◌-◌, ltb, ◌≡◌, refl, unwrap_or, arith, String, str_eq, str_eq_iff, Bool, true, false, not,
  Option, none, some, ok, if◌then◌else◌,
}
use chaop.Json.{Serde, Value, null, bool, string, array, cons, nil, RoundTrips, get}
use chaop.Manager.Types.{AppServerInstanceSnapshot}
use chaop.Connector.Message.{agent_ready_retry_interval, app_server_instance_summary_interval}
use chaop.Connector.Instances.{
  AppServerInstancesSendState, send_report, send_keyed, sent_state, instance_value, rewrite_message,
  next_report_id, send_app_server_instances, app_server_instances_value,
  should_send_app_server_instances, acknowledge_app_server_instances, has_unacked_snapshot_for_key,
  app_server_instances_message_key, app_server_instances_message_with_snapshot,
  app_server_instances_message_with_report_id,
}
use chaop.Connector.Instances.Report.{
  Fits, report, numbered_report, report-canonical, numbered_report-canonical, report-marked,
  report-numbered,
}

-- After a report with a key went out at time `at`, an acknowledgement arrives, with or without a
-- report id. Where its id is absent or that of the report, the key is not sent again, unless it is
-- forced, before five minutes have passed; where it is another id, before ten seconds.
pub ack_slows :
    (serde : Serde) (socket : String → Bool) (text key wire : String) (snapshot : Bool)
    (state state' : AppServerInstancesSendState) (at now : ℕ) (report_id : Option String)
    → send_report serde socket text key snapshot state at ≡ (ok (some wire), state')
    → (id : String) × (state'.last_sent_id ≡ some id)
      × (should_send_app_server_instances key
            (acknowledge_app_server_instances state' report_id)
            false
            now
          ≡ not (
              ltb (now - at) (
                if elim report_id [ none ↦ true | some r ↦ str_eq id r ]
                then app_server_instance_summary_interval
                else agent_ready_retry_interval)))
unfolding send_report next_report_id should_send_app_server_instances
    acknowledge_app_server_instances
ack_slows serde socket text key wire snapshot state state' at now report_id went =
    ((next_report_id state).0, ground arith, ground (arith, str_eq_iff key key))

-- A snapshot that was sent and not acknowledged is sent again as a snapshot: where the state has an
-- unacknowledged snapshot for the key of the instance's report, the report is due and the numbers of
-- the instance fit in 64 bits, `send_app_server_instances` called without a snapshot puts one text on
-- the wire. Read back, it is the report of this instance, marked as a snapshot and numbered with the
-- id that the state remembers; and the state still waits for the acknowledgement of a snapshot. The
-- socket takes every text.
pub snapshot_resent :
    (serde : Serde) (instance : AppServerInstanceSnapshot) (state : AppServerInstancesSendState)
    (value : Value) (key : String) (now : ℕ)
    → RoundTrips serde
    → Fits instance
    → app_server_instances_value (some instance) false ≡ some value
    → app_server_instances_message_key serde (serde.to_string value) ≡ ok key
    → has_unacked_snapshot_for_key state key ≡ true
    → should_send_app_server_instances key state false now ≡ true
    → (wire : String) × (state' : AppServerInstancesSendState) × (sent : Value) × (payload : Value)
      × (id : String) × (send_app_server_instances serde
            (λ text. true)
            (some instance)
            state
            false
            false
            now
          ≡ (ok (some wire), state'))
      × (serde.from_str wire ≡ some sent)
      × (get "kind" sent ≡ some (string "agent.app_server_instances"))
      × (get "payload" sent ≡ some payload)
      × (get "instances" payload ≡ some (array (cons (instance_value instance) nil)))
      × (get "snapshot" payload ≡ some (bool true))
      × (get "report_id" payload ≡ some (string id))
      × (state'.last_sent_id ≡ some id)
      × (has_unacked_snapshot_for_key state' key ≡ true)
unfolding app_server_instances_value send_app_server_instances send_keyed send_report next_report_id
    has_unacked_snapshot_for_key app_server_instances_message_with_snapshot
    app_server_instances_message_with_report_id rewrite_message get
snapshot_resent serde instance state value key now trips fits made keyed unacked due =
    let id = (next_report_id state).0 in
    let sent = numbered_report instance id true in
    let marked = report instance true in
    let plain = report instance false in
    (
      serde.to_string sent,
      sent_state (next_report_id state).1 (serde.to_string marked) id key true now,
      sent,
      unwrap_or (get "payload" sent) null,
      id,
      ground (
        arith,
        trips plain (report-canonical instance false fits),
        trips marked (report-canonical instance true fits),
        report-marked instance false true,
        report-numbered instance id true,
      ),
      (trips sent (numbered_report-canonical instance id true fits)).0,
      refl,
      refl,
      refl,
      refl,
      refl,
      refl,
      ground (arith, str_eq_iff key key),
    )
