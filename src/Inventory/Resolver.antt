-- ===== src/Inventory/Resolver.antt =====
-- The resolver of the app-server's host names (crates/agent/src/session_inventory.rs): one active
-- worker, and those that were replaced because a request timed out and whose threads have not ended.
-- A worker is its generation. Which threads have ended, whether a thread can be spawned, and what
-- the channels answer are arguments of a call; what the other threads do to the shared state between the
-- sections under the lock is a function.
pub mod Reap
pub mod Recovery
use chaop.Base.{
  ℕ, zero, suc, ◌+◌, leb, ◌==◌, Bool, true, false, not, String, ◌str++◌, Option, none, some, List,
  [], ◌∷◌, ◌++◌, length, if◌then◌else◌, Result, ok, err, saturating_add, u64_max, is_some_and,
}

pub record AppServerResolverState : Type 0 where
  pub active : Option ℕ
  pub retired : List ℕ
  pub next_generation : ℕ
  pub poisoned : Bool

abbrev pub app_server_max_retired_resolver_workers : ℕ
app_server_max_retired_resolver_workers = 2

abbrev pub started : AppServerResolverState
started = record { active = some 0; retired = []; next_generation = 1; poisoned = false }

-- `swap_remove` at the head of what is left: the last one takes its place.
unfoldable pub last_first : List ℕ → List ℕ
last_first [] = []
last_first (w ∷ ws) = elim (last_first ws) [ [] ↦ w ∷ [] | l ∷ rest ↦ l ∷ w ∷ rest ]

-- The loop over the retired workers, of which each round removes one or steps over one; their number is
-- enough fuel.
unfoldable pub reap_loop : ℕ → (ℕ → Bool) → List ℕ → List ℕ
unfolding last_first
reap_loop zero finished ws = ws
reap_loop (suc left) finished [] = []
reap_loop (suc left) finished (w ∷ ws) =
    let removed = reap_loop left finished (last_first ws) in
    let kept = reap_loop left finished ws in if finished w then removed else w ∷ kept

unfoldable pub reap_finished_workers : (ℕ → Bool) → AppServerResolverState → AppServerResolverState
unfolding reap_loop
reap_finished_workers finished state = record state {
  retired = reap_loop (length state.retired) finished state.retired;
}

abbrev pub Answer {ℓ} : Type ℓ → Type ℓ
Answer A = Result A String

abbrev poisoned_error : String
poisoned_error = "app-server resolver state lock is poisoned"

abbrev pub sender_of : Option ℕ → Answer ℕ
sender_of none = err "app-server resolver is stopped"
sender_of (some generation) = ok generation

unfoldable pub active_sender :
    (ℕ → Bool) → AppServerResolverState → Answer ℕ × AppServerResolverState
unfolding reap_finished_workers
active_sender finished state =
    if state.poisoned
    then (err poisoned_error, state)
    else (sender_of state.active, reap_finished_workers finished state)

abbrev pub recovery_limit_error : String
recovery_limit_error = "app-server resolver recovery limit reached"

abbrev replaced : ℕ → AppServerResolverState → AppServerResolverState
replaced generation state = record state {
  active = some state.next_generation;
  retired = state.retired ++ (generation ∷ []);
  next_generation = saturating_add u64_max state.next_generation 1;
}

unfoldable pub replace_worker :
    Answer (Unit {0}) → ℕ → AppServerResolverState → Answer (Unit {0}) × AppServerResolverState
replace_worker spawned generation state =
    if not (is_some_and state.active (λ g. g == generation))
    then (ok tt, state)
    else if leb app_server_max_retired_resolver_workers (length state.retired)
    then (err recovery_limit_error, state)
    else elim spawned [ ok _ ↦ (ok tt, replaced generation state) | err e ↦ (err e, state) ]

unfoldable pub replace_timed_out_worker :
    (ℕ → Bool)
    → Answer (Unit {0})
    → ℕ
    → AppServerResolverState
    → Answer (Unit {0}) × AppServerResolverState
unfolding reap_finished_workers replace_worker
replace_timed_out_worker finished spawned generation state =
    if state.poisoned
    then (err poisoned_error, state)
    else replace_worker spawned generation (reap_finished_workers finished state)

-- What the channels of a request answer.
pub data Sent : Type 0 where
  accepted full disconnected : Sent

pub data Received : Type 0 where
  addresses : List String → Received
  failed : String → Received
  timed_out hung_up : Received

-- What happens around the locked sections of one call.
pub record Surroundings : Type 0 where
  pub finished_before : ℕ → Bool
  pub sent : Sent
  pub received : Received
  pub others : AppServerResolverState → AppServerResolverState
  pub finished_after : ℕ → Bool
  pub spawned : Answer (Unit {0})

abbrev with_recovery : String → Answer (Unit {0}) → String
with_recovery problem (ok _) = problem
with_recovery problem (err e) = problem str++ ("; " str++ e)

abbrev pub Resolved : Type 0
Resolved = Answer (List String) × AppServerResolverState

unfoldable pub give_up : Surroundings → ℕ → String → AppServerResolverState → Resolved
unfolding replace_timed_out_worker
give_up around generation problem state =
    let recovery = replace_timed_out_worker around.finished_after around.spawned generation state in
    (err (with_recovery problem recovery.0), recovery.1)

abbrev stopped : String → String
stopped url = "app-server resolver stopped before resolving " str++ url

abbrev pub receive : Surroundings → String → ℕ → AppServerResolverState → Received → Resolved
receive around url generation state (addresses found) = (ok found, state)
receive around url generation state (failed e) = (err e, state)
receive around url generation state timed_out =
    give_up around generation ("timed out resolving app-server URL " str++ url) state
receive around url generation state hung_up = give_up around generation (stopped url) state

abbrev pub send : Surroundings → String → ℕ → AppServerResolverState → Sent → Resolved
send around url generation state accepted = receive around url generation state around.received
send around url generation state Sent.full =
    (err ("app-server resolver is busy resolving " str++ url), state)
send around url generation state disconnected = give_up around generation (stopped url) state

abbrev pub with_sender : Surroundings → String → Answer ℕ → AppServerResolverState → Resolved
with_sender around url (err e) state = (err e, state)
with_sender around url (ok generation) state =
    send around url generation (around.others state) around.sent

unfoldable pub resolve : Surroundings → String → AppServerResolverState → Resolved
unfolding active_sender give_up
resolve around url state =
    let taken = active_sender around.finished_before state in with_sender around url taken.0 taken.1
