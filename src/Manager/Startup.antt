-- ===== src/Manager/Startup.antt =====
-- The startup wait ends by its deadline: the fuel of `wait_until_ready`
-- (crates/agent/src/app_server_manager.rs) is enough on a clock that does not go back.
use chaop.Base.{
  ℕ, zero, suc, ◌+◌, ◌-◌, ◌*◌, ◌/◌, ◌≤◌, ◌≡◌, ◌∙◌, ◌⊎◌, String, Bool, true, false, Option, none,
  some, arith, min, ◌>>=◌, ◌>>◌, pure, gets, done, if◌then◌else◌, Preorder, Keeps, gets-Keeps,
}
use native.Mathlib.Nat.{le_refl, le_trans, zero-add, suc-add}
use chaop.Config.{AgentConfig}
use chaop.Manager.Types.{AppServerInstanceState, AppServerManager}
use chaop.Manager.Host.{Host, State, M, now, outside, update}
use chaop.Manager.Process.{set_state}
use chaop.Manager.Ready.{
  probe_round, nap, ready_round, wait_until_ready_loop, startup_timeout, wait_until_ready,
}
use chaop.Manager.Frame.{Quiet, IsCall, IsFrame}
use chaop.Manager.Frame.Process.{clear-Keeps}
use chaop.Manager.Frame.Ready.{in_time-Keeps}

-- The clock does not go back, and a sleep lasts at least as long as it is asked to.
pub record IsForward (host : Host) : Type 1 where
  pub calls_forward :
      {A : Type 0} (f : host.World → A × host.World)
      → IsCall host A f
      → (w : host.World) → host.clock w ≤ host.clock (f w).1
  pub read_forward : (w : host.World) → host.clock w ≤ host.clock (host.read_clock w)
  pub sleep_lasts : (d : ℕ) (w : host.World) → host.clock w + d ≤ host.clock (host.sleep d w)

module _ (host : Host) (forward : IsForward host) where
  open forward use {calls_forward, read_forward, sleep_lasts}

  abbrev Later : Preorder (State host)
  Later = record {
    rel = λ s t. host.clock s.world ≤ host.clock t.world;
    reflexive = λ s. le_refl (host.clock s.world);
    transitive = λ s t u p q. le_trans p q;
  }

  outside-Later :
      {A : Type 0} (f : host.World → A × host.World)
      → IsCall host A f
      → Keeps Later (outside host f)
  unfolding outside
  outside-Later f c = record { along = λ s. calls_forward f c s.world }

  now-Later : Keeps Later (now host)
  unfolding now
  now-Later = record { along = λ s. read_forward s.world }

  set_state-Later :
      (state : AppServerInstanceState) (summary : String) (error : Option String)
      → Keeps Later (set_state host state summary error)
  unfolding set_state update
  set_state-Later state summary error = record { along = λ s. le_refl (host.clock s.world) }

  update-Later :
      (f : AppServerManager host.Child → AppServerManager host.Child)
      → ((m : AppServerManager host.Child) → Quiet m (f m))
      → Keeps Later (update host f)
  unfolding update
  update-Later f quiet = record { along = λ s. le_refl (host.clock s.world) }

  abbrev Later_frame : IsFrame host Later
  Later_frame = record {
    of_outside = outside-Later;
    of_now = now-Later;
    of_set_state = set_state-Later;
    of_update = update-Later;
  }

  module _ (deadline : ℕ) where
    -- A round that goes on has passed the deadline or lasted a tenth of a second.
    record Progresses (m : M host (Option Bool)) : Type 0 where
      moves :
          (s : State host)
          → (m s).0 ≡ none
          → (deadline ≤ host.clock (m s).1.world)
            ⊎ (host.clock s.world + probe_round ≤ host.clock (m s).1.world)

    bind-Progresses :
        {A : Type 0} {m : M host A} {k : A → M host (Option Bool)}
        → Keeps Later m
        → ((a : A) → Progresses (k a))
        → Progresses (m >>= k)
    unfolding ◌>>=◌
    bind-Progresses {m = m} {k = k} h g = record {
      moves = λ s e. ground (arith, h.along s, (g (m s).0).moves (m s).1 e);
    }

    then-Progresses :
        {A : Type 0} {m : M host A} {k : M host (Option Bool)}
        → Keeps Later m
        → Progresses k
        → Progresses (m >> k)
    unfolding ◌>>◌
    then-Progresses {m = m} {k = k} h g = record {
      moves = λ s e. ground (arith, h.along s, g.moves (m s).1 e);
    }

    if-Progresses :
        (b : Bool) {m k : M host (Option Bool)}
        → Progresses m
        → Progresses k
        → Progresses (if b then m else k)
    if-Progresses true h g = h
    if-Progresses false h g = g

    stop-Progresses : (b : Bool) → Progresses (pure (some b))
    unfolding pure
    stop-Progresses b = record { moves = λ s e. cc }

    nap-Progresses : Progresses (nap host deadline >> pure none)
    unfolding nap now outside done pure ◌>>=◌ ◌>>◌
    nap-Progresses = record {
      moves = λ s e.
          let t = host.clock (host.read_clock s.world) in
          ground (
            arith,
            read_forward s.world,
            sleep_lasts (min (deadline - t) probe_round) (host.read_clock s.world),
          );
    }

    round-Progresses :
        (config : AgentConfig) (url : String) → Progresses (ready_round host config url deadline)
    unfolding ready_round
    round-Progresses config url = bind-Progresses now-Later (λ start.
        bind-Progresses (gets-Keeps _) (λ stop. if-Progresses _ (stop-Progresses false) (
          then-Progresses (clear-Keeps host Later Later_frame) (
            bind-Progresses (gets-Keeps _) (λ child. bind-Progresses now-Later (λ t.
              if-Progresses _ (stop-Progresses false) (
                bind-Progresses
                  (in_time-Keeps host Later Later_frame config url deadline (deadline - t))
                  (λ ready. if-Progresses ready (stop-Progresses true) nap-Progresses))))))))

    -- Past the deadline a round stops.
    round-stops :
        (config : AgentConfig) (url : String) (s : State host)
        → deadline ≤ host.clock s.world
        → (ready_round host config url deadline s).0 ≡ some false
    unfolding ready_round now gets pure ◌>>=◌
    round-stops config url s late = ground (arith, read_forward s.world)

    -- One more round of fuel changes nothing once there is enough to pass the deadline.
    loop-suc :
        (config : AgentConfig) (url : String) (fuel : ℕ) (s : State host)
        → 1 ≤ fuel
        → deadline + probe_round ≤ host.clock s.world + fuel * probe_round
        → wait_until_ready_loop host (suc fuel) config url deadline s
          ≡ wait_until_ready_loop host fuel config url deadline s
    unfolding wait_until_ready_loop ◌>>=◌ pure
    loop-suc config url zero s one enough = absurd (omega arith)
    loop-suc config url (suc zero) s one enough =
        ground (arith, round-stops config url s (omega arith))
    loop-suc config url (suc (suc fuel)) s one enough = ground (
      arith,
      (round-Progresses config url).moves s,
      loop-suc config url (suc fuel) (ready_round host config url deadline s).1,
    )

  loop-add :
      (config : AgentConfig) (url : String) (deadline fuel extra : ℕ) (s : State host)
      → 1 ≤ fuel
      → deadline + probe_round ≤ host.clock s.world + fuel * probe_round
      → wait_until_ready_loop host (extra + fuel) config url deadline s
        ≡ wait_until_ready_loop host fuel config url deadline s
  loop-add config url deadline fuel zero s one enough = rw zero-add
  loop-add config url deadline fuel (suc extra) s one enough = rw suc-add (
      loop-suc deadline config url (extra + fuel) s (omega arith) (grind arith)
      ∙ loop-add config url deadline fuel extra s one enough)

  -- On a clock that does not go back, the wait of `wait_until_ready` is not cut by its fuel: with any
  -- more it returns the same answer and leaves the same state.
  pub wait_until_ready_enough :
      (config : AgentConfig) (url : String) (extra : ℕ) (s : State host)
      → let begun = (now host s).1 in
        wait_until_ready_loop host
          (extra + (startup_timeout config / probe_round + 2))
          config
          url
          (host.clock begun.world + startup_timeout config)
          begun
        ≡ wait_until_ready host config url s
  unfolding wait_until_ready now ◌>>=◌
  wait_until_ready_enough config url extra s =
      loop-add config url _ (startup_timeout config / probe_round + 2) extra _ (omega arith)
        (omega arith)
