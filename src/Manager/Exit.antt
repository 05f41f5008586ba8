-- ===== src/Manager/Exit.antt =====
-- The wait for a child's exit ends by its deadline: the fuel of `wait_for_child_exit`
-- (crates/agent/src/app_server_manager.rs) is enough on a clock that does not go back.
use chaop.Base.{ℕ, zero, suc, ◌+◌, ◌*◌, ◌/◌, ◌≤◌, ◌≡◌, arith, ◌∙◌, ◌>>=◌, ◌>>◌, pure}
use native.Mathlib.Nat.{zero-add, suc-add}
use chaop.Manager.Types.{millis}
use chaop.Manager.Host.{Host, State, now, outside}
use chaop.Manager.Frame.{try_waits}
use chaop.Manager.Process.{and_then, wait_for_child_exit, wait_for_child_exit_loop}
use chaop.Manager.Startup.{IsForward}

module _ (host : Host) (forward : IsForward host) where
  open forward use {calls_forward, read_forward, sleep_lasts}

  exit-suc :
      (child : host.Child) (deadline fuel : ℕ) (s : State host)
      → 1 ≤ fuel
      → deadline + millis 50 ≤ host.clock s.world + fuel * millis 50
      → wait_for_child_exit_loop host (suc fuel) child deadline s
        ≡ wait_for_child_exit_loop host fuel child deadline s
  unfolding wait_for_child_exit_loop and_then outside now pure ◌>>=◌ ◌>>◌
  exit-suc child deadline zero s one enough = absurd (omega (arith, one))
  exit-suc child deadline (suc zero) s one enough = ground (
    arith,
    calls_forward (host.try_wait child) (try_waits child) s.world,
    read_forward (host.try_wait child s.world).1,
  )
  exit-suc child deadline (suc (suc fuel)) s one enough =
      let tried = (host.try_wait child s.world).1 in
      let slept = host.sleep (millis 50) (host.read_clock tried) in
      ground (
        arith,
        calls_forward (host.try_wait child) (try_waits child) s.world,
        read_forward tried,
        sleep_lasts (millis 50) (host.read_clock tried),
        exit-suc child deadline (suc fuel) (record s { world = slept }),
      )

  exit-add :
      (child : host.Child) (deadline fuel extra : ℕ) (s : State host)
      → 1 ≤ fuel
      → deadline + millis 50 ≤ host.clock s.world + fuel * millis 50
      → wait_for_child_exit_loop host (extra + fuel) child deadline s
        ≡ wait_for_child_exit_loop host fuel child deadline s
  exit-add child deadline fuel zero s one enough = rw zero-add
  exit-add child deadline fuel (suc extra) s one enough = rw suc-add (
      exit-suc child deadline (extra + fuel) s (omega arith) (grind arith)
      ∙ exit-add child deadline fuel extra s one enough)

  -- On a clock that does not go back, the wait for a child's exit is not cut by its fuel: with any
  -- more it returns the same answer and leaves the same state.
  pub wait_for_child_exit_enough :
      (child : host.Child) (timeout extra : ℕ) (s : State host)
      → let begun = (now host s).1 in
        wait_for_child_exit_loop host
          (extra + (timeout / millis 50 + 2))
          child
          (host.clock begun.world + timeout)
          begun
        ≡ wait_for_child_exit host child timeout s
  unfolding wait_for_child_exit now ◌>>=◌
  wait_for_child_exit_enough child timeout extra s =
      exit-add child _ (timeout / millis 50 + 2) extra _ (omega arith) (omega arith)
