-- ===== src/Connector/Waiting/Deferred.antt =====
-- What happens to the messages that a wait puts off.
use chaop.Base.{
  ◌≡◌, refl, ◌∙◌, sym, ap, ℕ, zero, suc, String, str_eq, Bool, true, false, Option, none, some,
  List, [], ◌∷◌, ◌++◌, if◌then◌else◌, Result, ok, err,
}
use chaop.Json.{Serde}
use chaop.Connector.Message.{
  Envelope, read_envelope, app_server_instances_ack_message, host_sessions_ack_message,
}
use chaop.Connector.Replies.{
  AckWaitAction, matched, host_sessions_refresh, defer, ActiveInteraction, Worker,
  TurnInteractionResponseAck,
}
use chaop.Connector.Waiting.{
  Incoming, pong, text_message, ping, close, other_message, Outcome, Surroundings, Waiting, ack_or,
  after, Next, goes_on, ends, is_request, handle_background_ack_message,
  handle_background_text_message, defer_text, wait_round, wait_loop, wait_for_ack, ended, restored,
  act_on, receive_message, begun, continued, unless_shutdown, with_world, refresh, or_request,
  background, acknowledge_response,
}

-- The messages put off after are those put off before, and later ones behind them.
pub record Grows {W : Type 0} (before later : Waiting W) : Type 0 where
  pub more : List String
  pub grown : later.deferred_messages ≡ before.deferred_messages ++ more

append_nil : (xs : List String) → xs ++ [] ≡ xs
append_nil [] = refl
append_nil (x ∷ xs) = ap (λ zs. x ∷ zs) (append_nil xs)

append_assoc : (xs ys zs : List String) → (xs ++ ys) ++ zs ≡ xs ++ (ys ++ zs)
append_assoc [] ys zs = refl
append_assoc (x ∷ xs) ys zs = ap (λ ws. x ∷ ws) (append_assoc xs ys zs)

same-Grows :
    {W : Type 0} (before later : Waiting W)
    → later.deferred_messages ≡ before.deferred_messages
    → Grows before later
same-Grows before later h = record {
  more = [];
  grown = h ∙ sym (append_nil before.deferred_messages);
}

Grows-trans : {W : Type 0} (a b c : Waiting W) → Grows a b → Grows b c → Grows a c
Grows-trans a b c h k = record {
  more = h.more ++ k.more;
  grown =
      k.grown ∙ ap (λ zs. zs ++ k.more) h.grown ∙ append_assoc a.deferred_messages h.more k.more;
}

if-Grows :
    {W : Type 0} {A : Type 0} (st : Waiting W) (b : Bool) (x y : A × Waiting W)
    → Grows st x.1
    → Grows st y.1
    → Grows st (if b then x else y).1
if-Grows st true x y h k = h
if-Grows st false x y h k = k

after-Grows :
    {W : Type 0} (st : Waiting W) (r : Outcome × Waiting W) → Grows st r.1 → Grows st (after r).1
after-Grows st (ok u, st') h = h
after-Grows st (err e, st') h = h

module _ (serde : Serde) (worker : Worker) (around : Surroundings) where
  refresh-Grows : (st : Waiting around.World) → Grows st (refresh serde worker around st).1
  refresh-Grows st = same-Grows st _ refl

  or_request-Grows :
      (text : String) (envelope : Envelope) (report : Option (Option String)) (of_sessions : Bool)
      (st : Waiting around.World)
      → Grows st (or_request serde worker around text envelope st (ack_or report of_sessions st)).1
  or_request-Grows text envelope (some id) of_sessions st = same-Grows st _ refl
  or_request-Grows text envelope none true st = same-Grows st _ refl
  or_request-Grows text envelope none false st =
      if-Grows st (is_request envelope.kind) _ _ (same-Grows st _ refl)
        (record { more = text ∷ []; grown = refl })

  background-Grows :
      (text : String) (envelope : Option Envelope) (st : Waiting around.World)
      → Grows st (background serde worker around text envelope st).1
  unfolding handle_background_ack_message
  background-Grows text none st = same-Grows st _ refl
  background-Grows text (some envelope) st =
      if-Grows st (str_eq envelope.kind "host_sessions.refresh") _ _ (refresh-Grows st) (
        or_request-Grows text envelope (app_server_instances_ack_message envelope)
          (host_sessions_ack_message envelope) st)

  acknowledge_response-Grows :
      (text : String) (st : Waiting around.World)
      (r : Result (Option TurnInteractionResponseAck) String × ActiveInteraction)
      → Grows st (acknowledge_response serde worker around text st r).1
  unfolding handle_background_text_message
  acknowledge_response-Grows text st (err e, active) = same-Grows st _ refl
  acknowledge_response-Grows text st (ok (some ack), active) = same-Grows st _ refl
  acknowledge_response-Grows text st (ok none, active) =
      Grows-trans st (record st { active = active }) _ (same-Grows st _ refl)
        (background-Grows text (read_envelope serde text) (record st { active = active }))

  defer_text-Grows :
      (turn : Option String) (text : String) (st : Waiting around.World)
      → Grows st (defer_text serde worker around turn text st).1
  unfolding defer_text handle_background_text_message
  defer_text-Grows none text st = background-Grows text (read_envelope serde text) st
  defer_text-Grows (some turn) text st = acknowledge_response-Grows text st _

  ended-Grows :
      (result : Result Bool String) (st : Waiting around.World) (r : Outcome × Waiting around.World)
      → Grows st r.1
      → Grows st (ended serde worker around result r).1
  ended-Grows result st (ok u, st') h = h
  ended-Grows result st (err e, st') h = h

  restored-Grows :
      (result : Result Bool String) (st : Waiting around.World)
      → Grows st (restored serde worker around result st).1
  restored-Grows result st =
      let r = with_world serde worker around st (around.set_read_timeout false st.world) in
      ended-Grows result st r (same-Grows st r.1 refl)

  act_on-Grows :
      (turn : Option String) (text : String) (action : Result AckWaitAction (Unit {0}))
      (st : Waiting around.World)
      → Grows st (act_on serde worker around turn text action st).1
  act_on-Grows turn text (err e) st = same-Grows st _ refl
  act_on-Grows turn text (ok (matched accepted)) st = restored-Grows (ok accepted) st
  act_on-Grows turn text (ok host_sessions_refresh) st =
      after-Grows st (refresh serde worker around st) (refresh-Grows st)
  act_on-Grows turn text (ok defer) st =
      after-Grows st (defer_text serde worker around turn text st) (defer_text-Grows turn text st)

  receive_message-Grows :
      (turn : Option String) (command_id event_kind : String) (incoming : Result Incoming String)
      (st : Waiting around.World)
      → Grows st (receive_message serde worker around turn command_id event_kind incoming st).1
  receive_message-Grows turn c k (err e) st = same-Grows st _ refl
  receive_message-Grows turn c k (ok (text_message text)) st = act_on-Grows turn text _ st
  receive_message-Grows turn c k (ok (ping payload)) st =
      let r = with_world serde worker around st (around.send (pong payload) st.world) in
      after-Grows st r (same-Grows st r.1 refl)
  receive_message-Grows turn c k (ok close) st = restored-Grows _ st
  receive_message-Grows turn c k (ok other_message) st = same-Grows st _ refl

  unless_shutdown-Grows :
      (turn : Option String) (command_id event_kind : String) (st : Waiting around.World)
      (flag : Bool × around.World)
      → Grows st (unless_shutdown serde worker around turn command_id event_kind st flag).1
  unless_shutdown-Grows turn c k st (true, world) =
      Grows-trans st (record st { world = world }) _ (same-Grows st _ refl)
        (restored-Grows _ (record st { world = world }))
  unless_shutdown-Grows turn c k st (false, world) =
      let (incoming, world') = around.read world in
      Grows-trans st (record st { world = world' }) _ (same-Grows st _ refl)
        (receive_message-Grows turn c k incoming (record st { world = world' }))

  round-Grows :
      (turn : Option String) (command_id event_kind : String) (st : Waiting around.World)
      → Grows st (wait_round serde worker around turn command_id event_kind st).1
  unfolding wait_round
  round-Grows turn c k st = unless_shutdown-Grows turn c k st _

  next-Grows :
      (st st' : Waiting around.World) (next : Next) (later : Next × Waiting around.World)
      → Grows st st'
      → Grows st' later.1
      → Grows st (continued serde worker around next st' later).1
  next-Grows st st' goes_on later h k = Grows-trans st st' later.1 h k
  next-Grows st st' (ends result) later h k = h

  wait_loop-Grows :
      (rounds : ℕ) (turn : Option String) (command_id event_kind : String)
      (st : Waiting around.World)
      → Grows st (wait_loop serde worker around rounds turn command_id event_kind st).1
  unfolding wait_loop
  wait_loop-Grows zero turn c k st = same-Grows st st refl
  wait_loop-Grows (suc rounds) turn c k st =
      let r = wait_round serde worker around turn c k st in
      next-Grows st r.1 r.0 (wait_loop serde worker around rounds turn c k r.1)
        (round-Grows turn c k st) (wait_loop-Grows rounds turn c k r.1)

  begun-Grows :
      (rounds : ℕ) (turn : Option String) (command_id event_kind : String)
      (st : Waiting around.World) (r : Outcome × Waiting around.World)
      → Grows st r.1
      → Grows st (begun serde worker around rounds turn command_id event_kind r).1
  begun-Grows rounds turn c k st (err e, st') h = h
  begun-Grows rounds turn c k st (ok u, st') h =
      Grows-trans st st' _ h (wait_loop-Grows rounds turn c k st')

  -- However long the wait for an acknowledgement goes on and however it ends, by a verdict, an error or not
  -- yet, the messages that were put off before it are still there, in their order, and those that
  -- it puts off come behind them.
  pub wait_for_ack-Grows :
      (rounds : ℕ) (turn : Option String) (command_id event_kind : String)
      (st : Waiting around.World)
      → Grows st (wait_for_ack serde worker around rounds turn command_id event_kind st).1
  unfolding wait_for_ack
  wait_for_ack-Grows rounds turn c k st =
      let r = with_world serde worker around st (around.set_read_timeout true st.world) in
      begun-Grows rounds turn c k st r (same-Grows st r.1 refl)
