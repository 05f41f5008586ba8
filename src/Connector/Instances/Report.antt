-- ===== src/Connector/Instances/Report.antt =====
-- The report of the app-server instance as a JSON value (crates/agent/src/connector.rs): as it is
-- made, and as the crate reads it back.
use chaop.Base.{◌≤◌, ◌≡◌, refl, arith, String, Bool, true, u64_max, Option-cases}
use chaop.Json.{
  Value, bool, string, array, object, nil, cons, field, end, canonical_to, is_canonical,
}
use chaop.Manager.Types.{AppServerInstanceSnapshot}
use chaop.Connector.Message.{message}
use chaop.Connector.Instances.{instance_value, set_in_payload}

-- The numbers of a snapshot fit in the 64 bits that they have in the source.
pub record Fits (i : AppServerInstanceSnapshot) : Type 0 where
  pub turns_fit : i.active_turn_count ≤ u64_max
  pub generation_fits : i.generation ≤ u64_max

abbrev pub report : AppServerInstanceSnapshot → Bool → Value
report i snapshot = message "agent.app_server_instances" (
    object (
      field "instances" (array (cons (instance_value i) nil))
        (field "snapshot" (bool snapshot) end)))

abbrev pub numbered_report : AppServerInstanceSnapshot → String → Bool → Value
numbered_report i id snapshot = message "agent.app_server_instances" (
    object (
      field "instances" (array (cons (instance_value i) nil))
        (field "report_id" (string id) (field "snapshot" (bool snapshot) end))))

pub instance_value-canonical :
    (i : AppServerInstanceSnapshot) → Fits i → canonical_to 124 (instance_value i) ≡ true
unfolding canonical_to instance_value
instance_value-canonical i fits =
    ground (arith, Option-cases i.last_error, Option-cases i.status_summary)

pub report-canonical :
    (i : AppServerInstanceSnapshot) (snapshot : Bool)
    → Fits i
    → is_canonical (report i snapshot) ≡ true
unfolding is_canonical
report-canonical i snapshot fits = ground (arith, instance_value-canonical i fits)

pub numbered_report-canonical :
    (i : AppServerInstanceSnapshot) (id : String) (snapshot : Bool)
    → Fits i
    → is_canonical (numbered_report i id snapshot) ≡ true
unfolding is_canonical
numbered_report-canonical i id snapshot fits = ground (arith, instance_value-canonical i fits)

pub report-marked :
    (i : AppServerInstanceSnapshot) (a b : Bool)
    → set_in_payload "snapshot" (bool b) (report i a) ≡ report i b
unfolding set_in_payload
report-marked i a b = refl

pub report-numbered :
    (i : AppServerInstanceSnapshot) (id : String) (a : Bool)
    → set_in_payload "report_id" (string id) (report i a) ≡ numbered_report i id a
unfolding set_in_payload
report-numbered i id a = refl
