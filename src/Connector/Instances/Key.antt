-- ===== src/Connector/Instances/Key.antt =====
-- The key of a report (crates/agent/src/connector.rs): two reports have one key when they tell the
-- same of the instance.
use chaop.Base.{◌≡◌, ◌↔◌, refl, sym, ◌∙◌, ap, arith, String, Bool, true, some, ok, unwrap_or}
use chaop.Json.{
  Value, null, array, object, nil, cons, field, end, Serde, RoundTrips, get, is_canonical,
}
use chaop.Manager.Types.{AppServerInstanceSnapshot}
use chaop.Connector.Message.{message}
use chaop.Connector.Instances.{
  instance_value, key_value, rewrite_message, app_server_instances_value,
  app_server_instances_message_key, app_server_instances_message_with_report_id,
}
use chaop.Connector.Instances.Report.{
  Fits, report, numbered_report, report-canonical, numbered_report-canonical, report-numbered,
  instance_value-canonical,
}

-- What the key keeps of a report.
abbrev kept : AppServerInstanceSnapshot → Value
kept i =
    message "agent.app_server_instances"
      (object (field "instances" (array (cons (instance_value i) nil)) end))

kept-canonical : (i : AppServerInstanceSnapshot) → Fits i → is_canonical (kept i) ≡ true
unfolding is_canonical
kept-canonical i fits = ground (arith, instance_value-canonical i fits)

-- The value of the instance in what a key keeps.
first : Value → Value
first (array (cons v rest)) = v
first v = null

instance_of : Value → Value
unfolding first get
instance_of v = first (unwrap_or (get "instances" (unwrap_or (get "payload" v) null)) null)

instance_of-kept : (i : AppServerInstanceSnapshot) → instance_of (kept i) ≡ instance_value i
unfolding instance_of
instance_of-kept i = refl

text_injective :
    (serde : Serde) (v w : Value)
    → RoundTrips serde
    → is_canonical v ≡ true
    → is_canonical w ≡ true
    → serde.to_string v ≡ serde.to_string w
    → v ≡ w
text_injective serde v w trips cv cw same = ground (arith, trips v cv, trips w cw)

-- The report of an instance, with any mark, has the same key before and after it was numbered; and
-- the reports of two instances, whatever their marks and numbers, have equal keys exactly when they
-- say the same of the instance. The numbers of the instances fit in 64 bits.
pub key_tells_instance :
    (serde : Serde) (i j : AppServerInstanceSnapshot) (a b : Bool) (id : String) (v w : Value)
    → RoundTrips serde
    → Fits i
    → Fits j
    → app_server_instances_value (some i) a ≡ some v
    → app_server_instances_value (some j) b ≡ some w
    → (numbered : String) × (k : String) × (l : String)
      × (app_server_instances_message_with_report_id serde (serde.to_string v) id ≡ ok numbered)
      × (app_server_instances_message_key serde (serde.to_string v) ≡ ok k)
      × (app_server_instances_message_key serde numbered ≡ ok k)
      × (app_server_instances_message_key serde (serde.to_string w) ≡ ok l)
      × ((k ≡ l) ↔ (instance_value i ≡ instance_value j))
unfolding app_server_instances_value app_server_instances_message_key
    app_server_instances_message_with_report_id rewrite_message key_value
key_tells_instance serde i j a b id v w trips fi fj made_v made_w = (
  serde.to_string (numbered_report i id a),
  serde.to_string (kept i),
  serde.to_string (kept j),
  ground (arith, trips (report i a) (report-canonical i a fi), report-numbered i id a),
  ground (arith, trips (report i a) (report-canonical i a fi)),
  ground (arith, trips (numbered_report i id a) (numbered_report-canonical i id a fi)),
  ground (arith, trips (report j b) (report-canonical j b fj)),
  (
    λ same.
        sym (instance_of-kept i)
        ∙ ap instance_of (
            text_injective serde (kept i) (kept j) trips (kept-canonical i fi) (kept-canonical j fj)
              same)
        ∙ instance_of-kept j,
    λ same.
        ap
          (λ u. serde.to_string (
            message "agent.app_server_instances"
              (object (field "instances" (array (cons u nil)) end))))
          same,
  ),
)
