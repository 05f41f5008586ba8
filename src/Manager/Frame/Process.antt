-- ===== src/Manager/Frame/Process.antt =====
-- The operations on the child process (crates/agent/src/app_server_manager.rs) keep a frame.
use chaop.Base.{
  ℕ, zero, suc, ◌+◌, ◌/◌, refl, none, some, Result, ok, err, Preorder, Keeps, pure-Keeps,
  done-Keeps, gets-Keeps, bind-Keeps, then-Keeps, if-Keeps,
}
use chaop.Manager.Types.{secs, millis}
use chaop.Manager.Host.{Host, IoError, Signal, State, M}
use chaop.Manager.Process.{
  signal_process_group, wait_for_child_exit_loop, wait_for_child_exit, kill_remaining_group,
  terminate_child, and_then, stop_child_checked, stop_child, record_start_failure,
  clear_exited_child,
}
use chaop.Manager.Frame.{IsFrame, sleeps, try_waits, waits, kills, signals}

module _ (host : Host) (R : Preorder (State host)) (frame : IsFrame host R) where
  open frame use {of_outside, of_now, of_set_state, of_update}

  pub and_then-Keeps :
      {A B : Type 0} {m : M host (Result A IoError)} {k : A → M host (Result B IoError)}
      → Keeps R m
      → ((a : A) → Keeps R (k a))
      → Keeps R (and_then host m k)
  unfolding and_then
  and_then-Keeps h g = bind-Keeps h (elim [ ok a ↦ g a | err e ↦ pure-Keeps _ ])

  pub signal-Keeps :
      (child : host.Child) (signal : Signal) → Keeps R (signal_process_group host child signal)
  unfolding signal_process_group
  signal-Keeps child signal =
      bind-Keeps (of_outside _ (signals child signal))
        (elim [ ok a ↦ pure-Keeps _ | err e ↦ if-Keeps _ (pure-Keeps _) (pure-Keeps _) ])

  pub exit_loop-Keeps :
      (fuel : ℕ) (child : host.Child) (deadline : ℕ)
      → Keeps R (wait_for_child_exit_loop host fuel child deadline)
  unfolding wait_for_child_exit_loop
  exit_loop-Keeps zero child deadline = pure-Keeps _
  exit_loop-Keeps (suc fuel) child deadline =
      let again = exit_loop-Keeps fuel child deadline in
      and_then-Keeps (of_outside _ (try_waits child)) (elim [
        | some _ ↦ pure-Keeps _
        | none ↦
            bind-Keeps of_now
              (λ t. if-Keeps _ (pure-Keeps _) (then-Keeps (of_outside _ (sleeps _)) again))
      ])

  pub remaining_group-Keeps : (child : host.Child) → Keeps R (kill_remaining_group host child)
  unfolding kill_remaining_group
  remaining_group-Keeps child =
      and_then-Keeps (signal-Keeps child _)
        (λ _. and_then-Keeps (signal-Keeps child _) (λ _. of_outside _ (waits child)))

  pub terminate_child-Keeps : (child : host.Child) → Keeps R (terminate_child host child)
  unfolding terminate_child wait_for_child_exit
  terminate_child-Keeps child = and_then-Keeps (of_outside _ (try_waits child)) (elim [
    | some _ ↦ remaining_group-Keeps child
    | none ↦ and_then-Keeps (signal-Keeps child _) (λ _.
        and_then-Keeps
          (bind-Keeps of_now (λ t. exit_loop-Keeps (secs 2 / millis 50 + 2) child (t + secs 2)))
          (λ exited. if-Keeps exited (remaining_group-Keeps child) (
            and_then-Keeps (signal-Keeps child _)
              (λ _. then-Keeps (of_outside _ (kills child)) (of_outside _ (waits child))))))
  ])

  pub stop_checked-Keeps : Keeps R (stop_child_checked host)
  unfolding stop_child_checked
  stop_checked-Keeps = bind-Keeps (gets-Keeps _) (elim [
    | none ↦ pure-Keeps _
    | some c ↦
        and_then-Keeps (terminate_child-Keeps c)
          (λ _. then-Keeps (of_update _ (λ m. (refl, refl, refl, refl, refl))) (pure-Keeps _))
  ])

  pub stop-Keeps : Keeps R (stop_child host)
  unfolding stop_child
  stop-Keeps = then-Keeps stop_checked-Keeps done-Keeps

  pub failure-Keeps : Keeps R (record_start_failure host)
  unfolding record_start_failure
  failure-Keeps = bind-Keeps of_now (λ t. of_update _ (λ m. (refl, refl, refl, refl, refl)))

  pub clear-Keeps : Keeps R (clear_exited_child host)
  unfolding clear_exited_child
  clear-Keeps = bind-Keeps (gets-Keeps _) (elim [
    | none ↦ done-Keeps
    | some c ↦ bind-Keeps (of_outside _ (try_waits c)) (elim [
      | ok none ↦ done-Keeps
      | ok (some text) ↦ then-Keeps (then-Keeps (of_set_state _ _ _) stop-Keeps) failure-Keeps
      | err e ↦ then-Keeps (then-Keeps (of_set_state _ _ _) stop-Keeps) failure-Keeps
    ])
  ])
