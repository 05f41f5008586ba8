-- ===== src/Connector/Dispatch/Order.antt =====
-- Which events of a command are sent, in which order, and where a dispatch ends
-- (crates/agent/src/connector.rs).
use chaop.Base.{
  ◌≡◌, refl, String, str_eq, Bool, true, false, Option, List, [], ◌∷◌, ◌++◌, ap, if◌then◌else◌,
  Result, ok, err,
}
use chaop.Executor.{ConnectorEvent}
use chaop.Connector.Dispatch.{Wire, CommandPayload, agent_event_message, exchange, dispatch_events}

module _ (wire : Wire) (command : CommandPayload) (target : Option String) where
  -- From one world to another, the events were sent in their order, each after the acceptance of the
  -- one before it, and each was accepted; that the command was accepted is not sent.
  pub data Accepted : List ConnectorEvent → wire.World → wire.World → Type 0 where
    all_sent : (w : wire.World) → Accepted [] w w
    skipped :
        (event : ConnectorEvent) (events : List ConnectorEvent) (w w' : wire.World)
        → str_eq event.kind "command.accepted" ≡ true
        → Accepted events w w'
        → Accepted (event ∷ events) w w'
    event_accepted :
        (event : ConnectorEvent) (events : List ConnectorEvent) (w sent answered w' : wire.World)
        → str_eq event.kind "command.accepted" ≡ false
        → wire.send (agent_event_message command event target) w ≡ (ok tt, sent)
        → wire.wait_for_ack command.id event.kind sent ≡ (ok true, answered)
        → Accepted events answered w'
        → Accepted (event ∷ events) w w'

  -- An event that stopped a dispatch: it could not be sent, or its acknowledgement did not come or
  -- rejected it. The dispatch ends with this answer, in the world behind it.
  pub data Stopped (event : ConnectorEvent) (w : wire.World)
      : Result Bool String × wire.World → Type 0 where
    not_sent :
        (error : String) (w' : wire.World)
        → str_eq event.kind "command.accepted" ≡ false
        → wire.send (agent_event_message command event target) w ≡ (err error, w')
        → Stopped event w (err error, w')
    not_acknowledged :
        (error : String) (sent w' : wire.World)
        → str_eq event.kind "command.accepted" ≡ false
        → wire.send (agent_event_message command event target) w ≡ (ok tt, sent)
        → wire.wait_for_ack command.id event.kind sent ≡ (err error, w')
        → Stopped event w (err error, w')
    rejected :
        (sent w' : wire.World)
        → str_eq event.kind "command.accepted" ≡ false
        → wire.send (agent_event_message command event target) w ≡ (ok tt, sent)
        → wire.wait_for_ack command.id event.kind sent ≡ (ok false, w')
        → Stopped event w (ok false, w')

  -- How a dispatch ends: every event was accepted, or a first one was not.
  pub data Ended (events : List ConnectorEvent) (w : wire.World)
      : Result Bool String × wire.World → Type 0 where
    all_accepted : (w' : wire.World) → Accepted events w w' → Ended events w (ok true, w')
    stopped :
        (before : List ConnectorEvent) (event : ConnectorEvent) (rest : List ConnectorEvent)
        (w' : wire.World) (r : Result Bool String × wire.World)
        → events ≡ before ++ event ∷ rest
        → Accepted before w w'
        → Stopped event w' r
        → Ended events w r

  skipped-Ended :
      (event : ConnectorEvent) (events : List ConnectorEvent) (w : wire.World)
      (r : Result Bool String × wire.World)
      → str_eq event.kind "command.accepted" ≡ true
      → Ended events w r
      → Ended (event ∷ events) w r
  skipped-Ended event events w _ own (all_accepted w' h) =
      all_accepted w' (skipped event events w w' own h)
  skipped-Ended event events w _ own (stopped before e rest w' r same h stop) =
      stopped (event ∷ before) e rest w' r (ap (λ es. event ∷ es) same)
        (skipped event before w w' own h) stop

  accepted-Ended :
      (event : ConnectorEvent) (events : List ConnectorEvent) (w sent answered : wire.World)
      (r : Result Bool String × wire.World)
      → str_eq event.kind "command.accepted" ≡ false
      → wire.send (agent_event_message command event target) w ≡ (ok tt, sent)
      → wire.wait_for_ack command.id event.kind sent ≡ (ok true, answered)
      → Ended events answered r
      → Ended (event ∷ events) w r
  accepted-Ended event events w sent answered _ other went took (all_accepted w' h) =
      all_accepted w' (event_accepted event events w sent answered w' other went took h)
  accepted-Ended event events w sent answered _ other went took
        (stopped before e rest w' r same h stop) =
      stopped (event ∷ before) e rest w' r (ap (λ es. event ∷ es) same)
        (event_accepted event before w sent answered w' other went took h) stop

  -- What one exchange is, and what the dispatch makes of it.
  data Exchanged (event : ConnectorEvent) (w : wire.World)
      : Result Bool String × wire.World → Type 0 where
    own : str_eq event.kind "command.accepted" ≡ true → Exchanged event w (ok true, w)
    taken :
        (sent w' : wire.World)
        → str_eq event.kind "command.accepted" ≡ false
        → wire.send (agent_event_message command event target) w ≡ (ok tt, sent)
        → wire.wait_for_ack command.id event.kind sent ≡ (ok true, w')
        → Exchanged event w (ok true, w')
    failed : (r : Result Bool String × wire.World) → Stopped event w r → Exchanged event w r

  waited-Exchanged :
      (event : ConnectorEvent) (w sent : wire.World) (r : Result Bool String × wire.World)
      → str_eq event.kind "command.accepted" ≡ false
      → wire.send (agent_event_message command event target) w ≡ (ok tt, sent)
      → wire.wait_for_ack command.id event.kind sent ≡ r
      → Exchanged event w r
  waited-Exchanged event w sent (ok true, w') other went took = taken sent w' other went took
  waited-Exchanged event w sent (ok false, w') other went took =
      failed (ok false, w') (rejected sent w' other went took)
  waited-Exchanged event w sent (err e, w') other went took =
      failed (err e, w') (not_acknowledged e sent w' other went took)

  sent-Exchanged :
      (event : ConnectorEvent) (w : wire.World) (s : Result (Unit {0}) String × wire.World)
      → str_eq event.kind "command.accepted" ≡ false
      → wire.send (agent_event_message command event target) w ≡ s
      → Exchanged event w (elim s.0 [
        | err error ↦ (err error, s.1)
        | ok _ ↦ wire.wait_for_ack command.id event.kind s.1
      ])
  sent-Exchanged event w (err e, w') other went = failed (err e, w') (not_sent e w' other went)
  sent-Exchanged event w (ok u, sent) other went =
      waited-Exchanged event w sent (wire.wait_for_ack command.id event.kind sent) other went refl

  chosen-Exchanged :
      (event : ConnectorEvent) (w : wire.World) (b : Bool) (r : Result Bool String × wire.World)
      → str_eq event.kind "command.accepted" ≡ b
      → (str_eq event.kind "command.accepted" ≡ false → Exchanged event w r)
      → Exchanged event w (if b then (ok true, w) else r)
  chosen-Exchanged event w true r same h = own same
  chosen-Exchanged event w false r same h = h same

  exchange-Exchanged :
      (event : ConnectorEvent) (w : wire.World)
      → Exchanged event w (exchange wire command target event w)
  unfolding exchange
  exchange-Exchanged event w =
      chosen-Exchanged event w (str_eq event.kind "command.accepted") _ refl
        (λ other. sent-Exchanged event w _ other refl)

  stopped-Ended :
      (event : ConnectorEvent) (events : List ConnectorEvent) (w : wire.World)
      (r rest : Result Bool String × wire.World)
      → Stopped event w r
      → Ended (event ∷ events) w (elim r.0 [
        | err error ↦ (err error, r.1)
        | ok accepted ↦ if accepted then rest else (ok false, r.1)
      ])
  stopped-Ended event events w _ rest (not_sent e w' other went) =
      stopped [] event events w (err e, w') refl (all_sent w) (not_sent e w' other went)
  stopped-Ended event events w _ rest (not_acknowledged e sent w' other went took) =
      stopped [] event events w (err e, w') refl (all_sent w)
        (not_acknowledged e sent w' other went took)
  stopped-Ended event events w _ rest (rejected sent w' other went took) =
      stopped [] event events w (ok false, w') refl (all_sent w) (rejected sent w' other went took)

  exchanged-Ended :
      (event : ConnectorEvent) (events : List ConnectorEvent) (w : wire.World)
      (r rest : Result Bool String × wire.World)
      → Exchanged event w r
      → Ended events r.1 rest
      → Ended (event ∷ events) w (elim r.0 [
        | err error ↦ (err error, r.1)
        | ok accepted ↦ if accepted then rest else (ok false, r.1)
      ])
  exchanged-Ended event events w _ rest (own same) h = skipped-Ended event events w rest same h
  exchanged-Ended event events w _ rest (taken sent w' other went took) h =
      accepted-Ended event events w sent w' rest other went took h
  exchanged-Ended event events w _ rest (failed r stop) h = stopped-Ended event events w r rest stop

  -- However the wire behaves, a dispatch sends its events in their order, each after the acceptance of
  -- the one before it, and never the event that the command was accepted. It answers true in the
  -- world behind the last event if every event was accepted; otherwise it ends with the first event
  -- that could not be sent, was not acknowledged or was rejected: it answers the error or false, in
  -- the world behind this event, so none of the later ones was sent.
  pub dispatch_ends :
      (events : List ConnectorEvent) (w : wire.World)
      → Ended events w (dispatch_events wire command target events w)
  unfolding dispatch_events
  dispatch_ends [] w = all_accepted w (all_sent w)
  dispatch_ends (event ∷ events) w =
      let r = exchange wire command target event w in
      exchanged-Ended event events w r (dispatch_events wire command target events r.1)
        (exchange-Exchanged event w) (dispatch_ends events r.1)
