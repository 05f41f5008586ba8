-- ===== src/Inventory/Resolver/Recovery.antt =====
-- The workers of the resolver: how many there are, and when one is replaced.
use chaop.Base.{
  ◌≡◌, refl, ◌∙◌, ap, arith, ℕ, ◌≤◌, ◌<◌, ltb, ◌==◌, Bool, true, false, ◌||◌, List, [], ◌∷◌, length,
  length-append, if◌then◌else◌, some, ok, err, is_some_and, u64_max, String, ◌str++◌,
}
use chaop.Inventory.Resolver.{
  AppServerResolverState, started, reap_finished_workers, active_sender, Answer, replaced,
  replace_worker, replace_timed_out_worker, Surroundings, accepted, timed_out, resolve, give_up,
  with_sender, send, receive, app_server_max_retired_resolver_workers,
}
use chaop.Inventory.Resolver.Reap.{length-reap_loop}

-- The sections under the lock, as the threads enter them, and the loss of the lock to a panic.
pub data Section : Type 0 where
  take_sender : (ℕ → Bool) → Section
  replace : (ℕ → Bool) → Answer (Unit {0}) → ℕ → Section
  poison : Section

unfoldable pub enter : Section → AppServerResolverState → AppServerResolverState
unfolding active_sender replace_timed_out_worker
enter (take_sender finished) state = (active_sender finished state).1
enter (replace finished spawned generation) state =
    (replace_timed_out_worker finished spawned generation state).1
enter poison state = record state { poisoned = true }

unfoldable pub enter_all : List Section → AppServerResolverState → AppServerResolverState
unfolding enter
enter_all [] state = state
enter_all (s ∷ ss) state = enter_all ss (enter s state)

-- At most two retired workers, and an active one, of an earlier generation than the next; when the
-- counter of generations is exhausted, of that one.
pub record Bounded (state : AppServerResolverState) : Type 0 where
  pub few : length state.retired ≤ app_server_max_retired_resolver_workers
  pub active_worker :
      is_some_and state.active
        (λ g. ltb g state.next_generation || (state.next_generation == u64_max))
      ≡ true

reap-Bounded :
    (finished : ℕ → Bool) (state : AppServerResolverState)
    → Bounded state
    → Bounded (reap_finished_workers finished state)
unfolding reap_finished_workers
reap-Bounded finished state h = record {
  few = omega (arith, length-reap_loop (length state.retired) finished state.retired, h.few);
  active_worker = h.active_worker;
}

replace_worker-Bounded :
    (spawned : Answer (Unit {0})) (generation : ℕ) (state : AppServerResolverState)
    → Bounded state
    → Bounded (replace_worker spawned generation state).1
unfolding replace_worker
replace_worker-Bounded spawned generation state h = record {
  few = ground (arith, h.few, length-append state.retired (generation ∷ []));
  active_worker = ground (arith, h.active_worker);
}

if-Bounded :
    {A : Type 0} (b : Bool) (x y : A × AppServerResolverState)
    → Bounded x.1
    → Bounded y.1
    → Bounded (if b then x else y).1
if-Bounded true x y h k = h
if-Bounded false x y h k = k

enter-Bounded :
    (s : Section) (state : AppServerResolverState) → Bounded state → Bounded (enter s state)
unfolding enter active_sender replace_timed_out_worker
enter-Bounded (take_sender finished) state h =
    if-Bounded state.poisoned _ _ h (reap-Bounded finished state h)
enter-Bounded (replace finished spawned generation) state h =
    if-Bounded state.poisoned _ _ h
      (replace_worker-Bounded spawned generation _ (reap-Bounded finished state h))
enter-Bounded poison state h = record { few = h.few; active_worker = h.active_worker }

started-Bounded : Bounded started
started-Bounded = record { few = omega arith; active_worker = refl }

enter_all-Bounded :
    (ss : List Section) (state : AppServerResolverState)
    → Bounded state
    → Bounded (enter_all ss state)
unfolding enter_all
enter_all-Bounded [] state h = h
enter_all-Bounded (s ∷ ss) state h = enter_all-Bounded ss (enter s state) (enter-Bounded s state h)

-- However the threads enter the sections under the lock, there are at most two retired workers, so at most
-- three of them, and there is an active worker, of an earlier generation than the next one unless
-- the generations are exhausted.
pub resolver-Bounded : (ss : List Section) → Bounded (enter_all ss started)
resolver-Bounded ss = enter_all-Bounded ss started started-Bounded

replaced_first :
    (finished : ℕ → Bool) (spawned : Answer (Unit {0})) (g : ℕ) (state : AppServerResolverState)
    → state.poisoned ≡ false
    → state.active ≡ some g
    → g < state.next_generation
    → (replace_timed_out_worker finished spawned g state).0 ≡ ok tt
    → ((replace_timed_out_worker finished spawned g state).1.active ≡ some state.next_generation)
      × ((replace_timed_out_worker finished spawned g state).1.poisoned ≡ false)
unfolding replace_timed_out_worker replace_worker reap_finished_workers
replaced_first finished spawned g state h k l m =
    (ground (arith, h, k, l, m), ground (arith, h, k, l, m))

not_active :
    (finished : ℕ → Bool) (spawned : Answer (Unit {0})) (g n : ℕ) (state : AppServerResolverState)
    → state.poisoned ≡ false
    → state.active ≡ some n
    → g < n
    → replace_timed_out_worker finished spawned g state
      ≡ (ok tt, reap_finished_workers finished state)
unfolding replace_timed_out_worker replace_worker reap_finished_workers
not_active finished spawned g n state h k l = ground (arith, h, k, l)

-- Two requests that timed out on one worker replace it once: after the first replacement the second
-- call succeeds and does no more than to reap the finished workers.
pub replaced_once :
    (finished finished' : ℕ → Bool) (spawned spawned' : Answer (Unit {0})) (g : ℕ)
    (state : AppServerResolverState)
    → state.poisoned ≡ false
    → state.active ≡ some g
    → g < state.next_generation
    → (replace_timed_out_worker finished spawned g state).0 ≡ ok tt
    → replace_timed_out_worker finished' spawned' g
        (replace_timed_out_worker finished spawned g state).1
      ≡ (
        ok tt,
        reap_finished_workers finished' (replace_timed_out_worker finished spawned g state).1,
      )
replaced_once finished finished' spawned spawned' g state h k l m =
    let (active, sound) = replaced_first finished spawned g state h k l m in
    not_active finished' spawned' g state.next_generation _ sound active l

replaces :
    (finished : ℕ → Bool) (spawned : Answer (Unit {0})) (g : ℕ) (state : AppServerResolverState)
    → state.poisoned ≡ false
    → state.active ≡ some g
    → length (reap_finished_workers finished state).retired
      < app_server_max_retired_resolver_workers
    → spawned ≡ ok tt
    → replace_timed_out_worker finished spawned g state
      ≡ (ok tt, replaced g (reap_finished_workers finished state))
unfolding replace_timed_out_worker replace_worker reap_finished_workers
replaces finished spawned g state h k l m = ground (arith, h, k, l, m)

sent_to :
    (finished : ℕ → Bool) (state : AppServerResolverState) (g : ℕ)
    → state.poisoned ≡ false
    → state.active ≡ some g
    → active_sender finished state ≡ (ok g, reap_finished_workers finished state)
unfolding active_sender
sent_to finished state g h k = ground (arith, h, k)

timed_out-give_up :
    (around : Surroundings) (url : String) (state : AppServerResolverState) (g : ℕ)
    → state.poisoned ≡ false
    → state.active ≡ some g
    → around.sent ≡ accepted
    → around.received ≡ timed_out
    → resolve around url state
      ≡ give_up around g
          ("timed out resolving app-server URL " str++ url)
          (around.others (reap_finished_workers around.finished_before state))
unfolding resolve
timed_out-give_up around url state g h k sent received =
    let mid = around.others (reap_finished_workers around.finished_before state) in
    ap (λ x. with_sender around url x.0 x.1) (sent_to around.finished_before state g h k)
    ∙ ap (send around url g mid) sent
    ∙ ap (receive around url g mid) received

recovered :
    (around : Surroundings) (problem : String) (mid : AppServerResolverState) (g : ℕ)
    (finished : ℕ → Bool)
    → mid.poisoned ≡ false
    → replace_timed_out_worker around.finished_after around.spawned g mid
      ≡ (ok tt, replaced g (reap_finished_workers around.finished_after mid))
    → ((give_up around g problem mid).0 ≡ err problem)
      × ((active_sender finished (give_up around g problem mid).1).0 ≡ ok mid.next_generation)
unfolding give_up active_sender reap_finished_workers
recovered around problem mid g finished sound done = (rw (done), rw (done) (rw (sound)))

-- A request that times out on the active worker reports that it did, and gives that worker up: if at
-- that time fewer than two retired workers are unfinished and a thread can be spawned, the next
-- request is sent to a worker of the next generation.
pub resolve_recovers :
    (around : Surroundings) (url : String) (state mid : AppServerResolverState) (g : ℕ)
    (finished : ℕ → Bool)
    → state.poisoned ≡ false
    → state.active ≡ some g
    → around.sent ≡ accepted
    → around.received ≡ timed_out
    → around.others (reap_finished_workers around.finished_before state) ≡ mid
    → mid.poisoned ≡ false
    → mid.active ≡ some g
    → length (reap_finished_workers around.finished_after mid).retired
      < app_server_max_retired_resolver_workers
    → around.spawned ≡ ok tt
    → ((resolve around url state).0 ≡ err ("timed out resolving app-server URL " str++ url))
      × ((active_sender finished (resolve around url state).1).0 ≡ ok mid.next_generation)
resolve_recovers around url state mid g finished h k sent received meanwhile sound same room
      spawns =
    let step =
      timed_out-give_up around url state g h k sent received
      ∙ ap (give_up around g ("timed out resolving app-server URL " str++ url)) meanwhile in
    let (reports, moves_on) =
      recovered around ("timed out resolving app-server URL " str++ url) mid g finished sound
        (replaces around.finished_after around.spawned g mid sound same room spawns) in
    (ap (λ x. x.0) step ∙ reports, ap (λ x. (active_sender finished x.1).0) step ∙ moves_on)
