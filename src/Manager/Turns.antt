-- ===== src/Manager/Turns.antt =====
-- The active turns of the manager (crates/agent/src/app_server_manager.rs).
use chaop.Base.{
  ℕ, ◌≡◌, refl, sym, ap, ◌∙◌, String, Option, List, [], ◌∷◌, Preorder, Keeps, done, ◌>>◌,
}
use chaop.Manager.Types.{AppServerInstanceState, AppServerManager}
use chaop.Manager.Host.{Host, State, now, outside, update}
use chaop.Manager.Process.{set_state}
use chaop.Manager.Runtime.{begin_turn, finish_turn}
use chaop.Manager.Calls.{
  Call, runtimes, probes, actives, snapshots, begins, finishes, call, run, turns_after,
}
use chaop.Manager.Frame.{Quiet, IsCall, IsFrame}
use chaop.Manager.Frame.Runtime.{
  runtime_config-Keeps, without_start-Keeps, active_turn-Keeps, snapshot-Keeps,
}

-- The configured part of the record and the count of turns are left alone.
abbrev pub SameSetting : {C : Type 0} → AppServerManager C → AppServerManager C → Type 0
SameSetting m n =
    (n.enabled ≡ m.enabled)
    × (n.listen_url ≡ m.listen_url)
    × (n.active_turn_count ≡ m.active_turn_count)

pub SameSetting-trans :
    {C : Type 0} (m n o : AppServerManager C) → SameSetting m n → SameSetting n o → SameSetting m o
SameSetting-trans m n o p q = (q.0 ∙ p.0, q.1 ∙ p.1, q.2 ∙ p.2)

turns_after-cons :
    (n : ℕ) (c : Call) (cs : List Call)
    → turns_after n (c ∷ cs) ≡ turns_after (turns_after n (c ∷ [])) cs
turns_after-cons n (runtimes config) cs = refl
turns_after-cons n begins cs = refl
turns_after-cons n finishes cs = refl
turns_after-cons n _ cs = refl

module _ (host : Host) where
  abbrev pub Settled : Preorder (State host)
  Settled = record {
    rel = λ s t. SameSetting s.manager t.manager;
    reflexive = λ s. (refl, refl, refl);
    transitive = λ s t u. SameSetting-trans s.manager t.manager u.manager;
  }

  outside-Settled :
      {A : Type 0} (f : host.World → A × host.World)
      → IsCall host A f
      → Keeps Settled (outside host f)
  unfolding outside
  outside-Settled f c = record { along = λ s. (refl, refl, refl) }

  now-Settled : Keeps Settled (now host)
  unfolding now
  now-Settled = record { along = λ s. (refl, refl, refl) }

  set_state-Settled :
      (state : AppServerInstanceState) (summary : String) (error : Option String)
      → Keeps Settled (set_state host state summary error)
  unfolding set_state update
  set_state-Settled state summary error = record { along = λ s. (refl, refl, refl) }

  update-Settled :
      (f : AppServerManager host.Child → AppServerManager host.Child)
      → ((m : AppServerManager host.Child) → Quiet m (f m))
      → Keeps Settled (update host f)
  unfolding update
  update-Settled f quiet = record {
    along = λ s. ((quiet s.manager).2, (quiet s.manager).3, (quiet s.manager).4);
  }

  pub Settled_frame : IsFrame host Settled
  Settled_frame = record {
    of_outside = outside-Settled;
    of_now = now-Settled;
    of_set_state = set_state-Settled;
    of_update = update-Settled;
  }

  abbrev Counted : List Call → State host → State host → Type 0
  Counted cs s t =
      (t.manager.active_turn_count ≡ turns_after s.manager.active_turn_count cs)
      × (t.manager.enabled ≡ s.manager.enabled)
      × (t.manager.listen_url ≡ s.manager.listen_url)

  call_turns : (c : Call) (s : State host) → Counted (c ∷ []) s (call host c s).1
  unfolding call ◌>>◌ done
  call_turns (runtimes config) s =
      let h = (runtime_config-Keeps host Settled Settled_frame config).along s in (h.2, h.0, h.1)
  call_turns (probes config) s =
      let h = (without_start-Keeps host Settled Settled_frame config).along s in (h.2, h.0, h.1)
  call_turns (actives config) s =
      let h = (active_turn-Keeps host Settled Settled_frame config).along s in (h.2, h.0, h.1)
  call_turns (snapshots config) s =
      let h = (snapshot-Keeps host Settled Settled_frame config).along s in (h.2, h.0, h.1)
  call_turns begins s = unfold begin_turn update in (refl, refl, refl)
  call_turns finishes s = unfold finish_turn update in (refl, refl, refl)

  -- After any list of calls the manager counts the turns begun and not finished, saturating at both
  -- ends, and its mode and listen address are those before the calls: no restart, failed start or
  -- snapshot touches them.
  pub run_turns :
      (cs : List Call) (s : State host)
      → let m = (run host cs s).1.manager in
        (m.active_turn_count ≡ turns_after s.manager.active_turn_count cs)
        × (m.enabled ≡ s.manager.enabled)
        × (m.listen_url ≡ s.manager.listen_url)
  unfolding run ◌>>◌ done
  run_turns [] s = (refl, refl, refl)
  run_turns (c ∷ cs) s =
      let first = call_turns c s in
      let rest = run_turns cs (call host c s).1 in
      (
        rest.0
            ∙ ap (λ n. turns_after n cs) first.0
            ∙ sym (turns_after-cons s.manager.active_turn_count c cs),
        rest.1 ∙ first.1,
        rest.2 ∙ first.2,
      )
