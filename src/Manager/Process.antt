-- ===== src/Manager/Process.antt =====
-- The child process: its start, its end and the backoff after a failure
-- (crates/agent/src/app_server_manager.rs). Lines written to stderr are left out.
use chaop.Base.{
  ℕ, zero, suc, ◌+◌, ◌/◌, ◌==◌, ltb, leb, max, String, Bool, true, false, ◌&&◌, Option, none, some,
  List, [], ◌∷◌, ◌++◌, if◌then◌else◌, is_some_and, Result, ok, err, ◌||◌, ◌str++◌, ◌>>=◌, ◌>>◌,
  pure, gets, done, saturating_add, u64_max,
}
use chaop.Config.{AgentConfig}
use chaop.Config.Url.{is_managed_listen_url}
use chaop.Manager.Types.{
  AppServerInstanceState, degraded, same_state, AppServerManager, secs, millis,
  app_server_spawn_attempts, app_server_spawn_retry_delay,
}
use chaop.Manager.Host.{
  Host, IoError, Command, Signal, sigterm, sigkill, State, M, now, outside, update, checked_add,
}

abbrev esrch : ℕ
esrch = 3

abbrev etxtbsy : ℕ
etxtbsy = 26

abbrev code_is : ℕ → IoError → Bool
code_is code e = is_some_and e.raw_os_error (λ c. c == code)

module _ (host : Host) where
  -- `set_state` on the record.
  abbrev pub with_state :
      AppServerInstanceState
      → String
      → Option String
      → AppServerManager host.Child
      → AppServerManager host.Child
  with_state state summary last_error m = record m {
    generation =
        if same_state m.state state then m.generation else saturating_add u64_max m.generation 1;
    state = state;
    status_summary = some summary;
    last_error = last_error;
  }

  unfoldable pub set_state : AppServerInstanceState → String → Option String → M host (Unit {0})
  set_state state summary last_error = update host (with_state state summary last_error)

  -- `?` on a result inside an operation.
  unfoldable pub and_then :
      {A B : Type 0}
      → M host (Result A IoError)
      → (A → M host (Result B IoError))
      → M host (Result B IoError)
  and_then m k = do result ← m; elim result [ ok a ↦ k a | err e ↦ pure (err e) ]

  -- `signal_process_group`: a group that is gone is no error.
  unfoldable pub signal_process_group : host.Child → Signal → M host (Result (Unit {0}) IoError)
  signal_process_group child signal = do
    result ← outside host (host.kill_group child signal)
    elim result [
      | ok a ↦ pure (ok tt)
      | err e ↦ if e.invalid_input || code_is esrch e then pure (ok tt) else pure (err e)
    ]

  -- The loop of `wait_for_child_exit`, which sleeps 50 ms each round.
  unfoldable pub wait_for_child_exit_loop : ℕ → host.Child → ℕ → M host (Result Bool IoError)
  wait_for_child_exit_loop zero child deadline = pure (ok false)
  wait_for_child_exit_loop (suc fuel) child deadline =
      let again = wait_for_child_exit_loop fuel child deadline in
      and_then (outside host (host.try_wait child)) λ status. elim status [
        | some _ ↦ pure (ok true)
        | none ↦ do
          t ← now host
          (if leb deadline t
              then pure (ok false)
              else (outside host (λ w. (tt, host.sleep (millis 50) w)) >> again))
      ]

  unfoldable pub wait_for_child_exit : host.Child → ℕ → M host (Result Bool IoError)
  unfolding wait_for_child_exit_loop
  wait_for_child_exit child timeout = do
    t ← now host
    wait_for_child_exit_loop (timeout / millis 50 + 2) child (t + timeout)

  -- The end of `terminate_child` where the child has exited: what is left of its group goes too.
  unfoldable pub kill_remaining_group : host.Child → M host (Result (Unit {0}) IoError)
  unfolding signal_process_group
  kill_remaining_group child =
      and_then (signal_process_group child sigterm)
        λ _. and_then (signal_process_group child sigkill) λ _. outside host (host.wait child)

  unfoldable pub terminate_child : host.Child → M host (Result (Unit {0}) IoError)
  unfolding signal_process_group wait_for_child_exit kill_remaining_group
  terminate_child child = and_then (outside host (host.try_wait child)) λ status. elim status [
    | some _ ↦ kill_remaining_group child
    | none ↦ and_then (signal_process_group child sigterm) λ _.
        and_then (wait_for_child_exit child (secs 2)) λ exited.
          if exited
          then kill_remaining_group child
          else and_then (signal_process_group child sigkill)
              λ _. do outside host (λ w. (tt, host.kill child w)); outside host (host.wait child)
  ]

  -- `stop_child_checked`: the child is forgotten only once it is terminated.
  unfoldable pub stop_child_checked : M host (Result (Unit {0}) IoError)
  stop_child_checked = do
    child ← gets (λ (s : State host). s.manager.child)
    elim child [
      | none ↦ pure (ok tt)
      | some c ↦
          and_then (terminate_child c)
            λ _. do update host (λ m. record m { child = none }); pure (ok tt)
    ]

  unfoldable pub stop_child : M host (Unit {0})
  stop_child = stop_child_checked >> done

  unfoldable pub record_start_failure : M host (Unit {0})
  record_start_failure = do
    t ← now host
    update host (λ m. record m { last_start_failure = some t })

  abbrev pub exited_unexpectedly : String → M host (Unit {0})
  exited_unexpectedly status =
      set_state degraded "Managed app-server exited unexpectedly."
        (some ("Process exited with status " str++ status str++ "."))

  unfoldable pub clear_exited_child : M host (Unit {0})
  clear_exited_child = do
    child ← gets (λ (s : State host). s.manager.child)
    elim child [
      | none ↦ done
      | some c ↦ do
        status ← outside host (host.try_wait c)
        elim status [
          | ok none ↦ done
          | ok (some text) ↦ exited_unexpectedly text >> stop_child >> record_start_failure
          | err e ↦
              set_state degraded "Failed to inspect managed app-server status." (some e.text)
              >> stop_child
              >> record_start_failure
        ]
    ]

  -- `start_backoff_deadline`, and the test of `can_attempt_start` at a time.
  unfoldable pub start_backoff_deadline : AgentConfig → AppServerManager host.Child → Option ℕ
  start_backoff_deadline config m = elim m.last_start_failure [
    | none ↦ none
    | some last_failure ↦
        checked_add host last_failure
          (secs (max config.session_inventory.managed_app_server.restart_backoff_seconds 1))
  ]

  unfoldable pub can_attempt_start : AgentConfig → M host Bool
  can_attempt_start config = do
    deadline ← gets (λ (s : State host). start_backoff_deadline config s.manager)
    elim deadline [ none ↦ pure true | some d ↦ do t ← now host; pure (leb d t) ]

  unfoldable pub validated_listen_url : AppServerManager host.Child → Option String
  validated_listen_url m = elim m.listen_url [
    | none ↦ none
    | some url ↦ if is_managed_listen_url host.urls url then some url else none
  ]

  unfoldable pub app_server_command : AgentConfig → String → Command
  app_server_command config listen_url = record {
    program = execution.codex_command;
    args =
        flag "--profile" execution.codex_profile
        ++ (flag "--model" execution.codex_model
            ++ ("app-server" ∷ session_inventory.managed_app_server.extra_args)
            ++ ("--listen" ∷ listen_url ∷ []));
    current_dir = config.workspace_root;
    codex_home = session_inventory.codex_home;
    process_group = 0;
  }
    where
      open config use {execution, session_inventory}

      flag : String → Option String → List String
      flag name none = []
      flag name (some value) = name ∷ value ∷ []

  -- The attempts that are left, and the last error that said the executable was busy.
  unfoldable pub spawn_attempts : ℕ → Command → Option IoError → M host (Result host.Child IoError)
  spawn_attempts zero command last_busy = pure (
      err (elim last_busy [
        | some e ↦ e
        | none ↦ record {
          text = "app-server spawn failed";
          raw_os_error = none;
          invalid_input = false;
        }
      ]))
  spawn_attempts (suc left) command last_busy = do
    result ← outside host (host.spawn command)
    elim result [
      | ok child ↦ pure (ok child)
      | err e ↦
          let again = spawn_attempts left command (some e) in
          if code_is etxtbsy e && ltb 0 left
          then (outside host (λ w. (tt, host.sleep app_server_spawn_retry_delay w)) >> again)
          else pure (err e)
    ]

  unfoldable pub spawn_app_server : AgentConfig → String → M host (Result host.Child IoError)
  unfolding spawn_attempts app_server_command
  spawn_app_server config listen_url =
      spawn_attempts app_server_spawn_attempts (app_server_command config listen_url) none
