-- ===== src/Manager/Generation.antt =====
-- The generation of the managed instance counts its changes of state, and the count of turns moves
-- by the two calls for turns only (crates/agent/src/app_server_manager.rs).
use chaop.Base.{
  ◌≤◌, ◌<◌, ◌≡◌, String, Option, List, [], ◌∷◌, arith, u64_max, Preorder, Keeps, done-Keeps,
  then-Keeps,
}
use chaop.Manager.Types.{AppServerInstanceState, AppServerManager}
use chaop.Manager.Host.{Host, State, now, outside, update}
use chaop.Manager.Process.{set_state}
use chaop.Manager.Runtime.{begin_turn, finish_turn}
use chaop.Manager.Calls.{Call, runtimes, probes, actives, snapshots, begins, finishes, call, run}
use chaop.Manager.Frame.{Quiet, IsCall, IsFrame}
use chaop.Manager.Frame.Runtime.{
  runtime_config-Keeps, without_start-Keeps, active_turn-Keeps, snapshot-Keeps,
}

-- The generation never falls, and while it stands still below its bound so does the state.
abbrev pub Advances : {C : Type 0} → AppServerManager C → AppServerManager C → Type 0
Advances m n =
    m.generation ≤ u64_max
    → (n.generation ≤ u64_max)
      × (m.generation ≤ n.generation)
      × (n.generation ≡ m.generation → m.generation < u64_max → n.state ≡ m.state)

pub Advances-refl : {C : Type 0} (m : AppServerManager C) → Advances m m
Advances-refl m h = ground arith

pub Advances-trans :
    {C : Type 0} (m n o : AppServerManager C) → Advances m n → Advances n o → Advances m o
Advances-trans m n o p q h = ground (arith, p h, q)

module _ (host : Host) where
  abbrev Advance : Preorder (State host)
  Advance = record {
    rel = λ s t. Advances s.manager t.manager;
    reflexive = λ s. Advances-refl s.manager;
    transitive = λ s t u. Advances-trans s.manager t.manager u.manager;
  }

  outside-Advance :
      {A : Type 0} (f : host.World → A × host.World)
      → IsCall host A f
      → Keeps Advance (outside host f)
  unfolding outside
  outside-Advance f c = record { along = λ s h. ground arith }

  now-Advance : Keeps Advance (now host)
  unfolding now
  now-Advance = record { along = λ s h. ground arith }

  set_state-Advance :
      (state : AppServerInstanceState) (summary : String) (error : Option String)
      → Keeps Advance (set_state host state summary error)
  unfolding set_state update
  set_state-Advance state summary error = record { along = λ s h. ground arith }

  update-Advance :
      (f : AppServerManager host.Child → AppServerManager host.Child)
      → ((m : AppServerManager host.Child) → Quiet m (f m))
      → Keeps Advance (update host f)
  unfolding update
  update-Advance f quiet = record { along = λ s h. ground (arith, quiet s.manager) }

  abbrev Advance_frame : IsFrame host Advance
  Advance_frame = record {
    of_outside = outside-Advance;
    of_now = now-Advance;
    of_set_state = set_state-Advance;
    of_update = update-Advance;
  }

  call-Advance : (c : Call) → Keeps Advance (call host c)
  unfolding call
  call-Advance (runtimes config) =
      then-Keeps (runtime_config-Keeps host Advance Advance_frame config) done-Keeps
  call-Advance (probes config) =
      then-Keeps (without_start-Keeps host Advance Advance_frame config) done-Keeps
  call-Advance (actives config) =
      then-Keeps (active_turn-Keeps host Advance Advance_frame config) done-Keeps
  call-Advance (snapshots config) =
      then-Keeps (snapshot-Keeps host Advance Advance_frame config) done-Keeps
  call-Advance begins = record { along = unfold begin_turn update in λ s h. ground arith }
  call-Advance finishes = record { along = unfold finish_turn update in λ s h. ground arith }

  run-Keeps : (cs : List Call) → Keeps Advance (run host cs)
  unfolding run
  run-Keeps [] = done-Keeps
  run-Keeps (c ∷ cs) = then-Keeps (call-Advance c) (run-Keeps cs)

  -- Over any list of calls, from a generation within its 64 bits, the generation stays within them
  -- and does not fall.
  pub run_generation :
      (cs : List Call) (s : State host)
      → s.manager.generation ≤ u64_max
      → let m = (run host cs s).1.manager in
        (m.generation ≤ u64_max) × (s.manager.generation ≤ m.generation)
  run_generation cs s h = let a = (run-Keeps cs).along s h in (a.0, a.1)

  -- If a list of calls leaves the generation where it was, below its bound, then the state after
  -- the calls is the state before them.
  pub run_same_state :
      (cs : List Call) (s : State host)
      → s.manager.generation < u64_max
      → (run host cs s).1.manager.generation ≡ s.manager.generation
      → (run host cs s).1.manager.state ≡ s.manager.state
  run_same_state cs s h e = ((run-Keeps cs).along s (omega arith)).2 e h
