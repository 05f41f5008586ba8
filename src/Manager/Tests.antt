-- ===== src/Manager/Tests.antt =====
-- The manager (crates/agent/src/app_server_manager.rs) on a small machine: the theorems at concrete
-- inputs, and runs.
use chaop.Base.{
  ℕ, ◌+◌, ◌≤◌, ◌≡◌, refl, leb, true, false, none, some, List, [], ◌∷◌, ok, err, arith, u64_max,
  if◌then◌else◌, ◌/◌, ◌>>◌, done,
}
use native.Mathlib.Nat.{le_refl, le-add_right}
use chaop.Config.{
  AgentConfig, ManagedAppServerConfig, default_execution, default_session_inventory,
  default_managed_app_server,
}
use chaop.Config.Url.{is_managed_listen_url, strip_unix_scheme, is_valid_unix_socket_path}
use chaop.Manager.Types.{
  millis, secs, PendingAppServerRestart, upgrade_marker, draining, degraded, stopped,
}
use chaop.Manager.Host.{Host, State, now, update}
use chaop.Manager.Frame.{IsCall, sleeps, checks, try_waits, waits, kills, signals, spawns, stats}
use chaop.Manager.Exit.{wait_for_child_exit_enough}
use chaop.Manager.Startup.{IsForward, wait_until_ready_enough}
use chaop.Manager.Runtime.{new, runtime_config, begin_turn, finish_turn}
use chaop.Manager.Calls.{Call, begins, finishes, runtimes, snapshots, call, run}
use chaop.Manager.Generation.{run_generation, run_same_state}
use chaop.Manager.Turns.{run_turns}
use chaop.Manager.Health.{HealthyUrl, runtime_config-Healthy}
use chaop.Manager.Drain.{advance_drains, schedule_keeps_upgrade}
use chaop.Manager.Backoff.{ensure_backs_off}
use chaop.Manager.Ready.{
  startup_timeout, probe_round, wait_until_ready_loop, wait_until_ready, ensure_ready,
}
use chaop.Manager.Restart.{advance_pending_restart, schedule_configured_restart_requests}
use chaop.Manager.Process.{
  wait_for_child_exit_loop, wait_for_child_exit, start_backoff_deadline, validated_listen_url,
}

-- A listener that is healthy from a given time on; every child runs and can be stopped.
abbrev machine : ℕ → Host
machine up = record {
  World = ℕ;
  Child = ℕ;
  urls = record { parse_uri = λ url. none; parse_ip = λ host. none };
  instant_max = u64_max;
  clock = λ t. t;
  read_clock = λ t. t + 1;
  sleep = λ d t. t + d;
  shutdown_requested = λ t. false;
  health_check = λ url timeout token t. (if leb up t then ok tt else err "refused", t);
  try_wait = λ child t. (ok none, t);
  wait = λ child t. (ok tt, t);
  kill = λ child t. t;
  kill_group = λ child signal t. (ok tt, t);
  spawn = λ command t. (ok 7, t);
  modified = λ path t. (some 3, t);
}

abbrev managed : ManagedAppServerConfig
managed = record default_managed_app_server {
  enabled = true;
  listen_url = some "unix:///tmp/a.sock";
}

abbrev config : AgentConfig
config = record {
  connector_name = "c";
  control_url = "wss://control";
  bootstrap_url = "https://control";
  workspace_root = "/w";
  token_file = "/t";
  spool_db = "/s";
  bootstrap_secret_file = "/b";
  execution = default_execution;
  session_inventory = record default_session_inventory { managed_app_server = managed };
}

machine-forward :
    (up : ℕ) {A : Type 0} (f : ℕ → A × ℕ) → IsCall (machine up) A f → (w : ℕ) → w ≤ (f w).1
machine-forward up f (sleeps d) w = le-add_right w d
machine-forward up f (checks url timeout token) w = le_refl w
machine-forward up f (try_waits child) w = le_refl w
machine-forward up f (waits child) w = le_refl w
machine-forward up f (kills child) w = le_refl w
machine-forward up f (signals child signal) w = le_refl w
machine-forward up f (spawns command) w = le_refl w
machine-forward up f (stats path) w = le_refl w

machine-IsForward : (up : ℕ) → IsForward (machine up)
machine-IsForward up = record {
  calls_forward = machine-forward up;
  read_forward = λ w. le-add_right w 1;
  sleep_lasts = λ d w. le_refl (w + d);
}

fresh : (up : ℕ) → State (machine up)
unfolding new
fresh up = record { manager = new (machine up) config none; world = 0 }

wait_until_ready_enough_example :
    let begun = (now (machine 5) (fresh 5)).1 in
    wait_until_ready_loop
      (machine 5)
      (9 + (startup_timeout config / probe_round + 2))
      config
      "u"
      ((machine 5).clock begun.world + startup_timeout config)
      begun
    ≡ wait_until_ready (machine 5) config "u" (fresh 5)
wait_until_ready_enough_example =
    wait_until_ready_enough (machine 5) (machine-IsForward 5) config "u" 9 (fresh 5)

abbrev history : List Call
history = begins ∷ runtimes config ∷ begins ∷ finishes ∷ snapshots config ∷ []

run_generation_example : 0 ≤ (run (machine 5) history (fresh 5)).1.manager.generation
unfolding fresh
run_generation_example = (run_generation (machine 5) history (fresh 5) (omega arith)).1

run_same_state_example :
    (run (machine 5) (begins ∷ finishes ∷ []) (fresh 5)).1.manager.state ≡ stopped
unfolding fresh run call begin_turn finish_turn update ◌>>◌ done
run_same_state_example =
    run_same_state (machine 5) (begins ∷ finishes ∷ []) (fresh 5) (omega arith) refl

run_turns_example : (run (machine 5) history (fresh 5)).1.manager.active_turn_count ≡ 1
unfolding fresh
run_turns_example = (run_turns (machine 5) history (fresh 5)).0

runtime_config-Healthy_example :
    HealthyUrl
      (machine 5)
      (runtime_config (machine 5) config (fresh 5)).0.session_inventory.app_server_url
      (runtime_config (machine 5) config (fresh 5)).1
unfolding fresh
runtime_config-Healthy_example = runtime_config-Healthy (machine 5) config (fresh 5) refl

abbrev request : PendingAppServerRestart
request = record { reason = upgrade_marker; requested_at = 1 }

-- Two turns run on child 7 while an upgrade waits.
abbrev busy : State (machine 0)
busy = record {
  manager = record (new (machine 0) config none) {
    child = some 7;
    active_turn_count = 2;
    pending_restart = some request;
  };
  world = 4;
}

advance_drains_example :
    (advance_pending_restart (machine 0) config busy).1.manager.state ≡ draining
advance_drains_example =
    (advance_drains (machine 0) config busy 7 request refl refl refl (omega arith) (omega arith)).3

schedule_keeps_upgrade_example :
    (schedule_configured_restart_requests (machine 0) config busy).1.manager.pending_restart
    ≡ some request
schedule_keeps_upgrade_example =
    (schedule_keeps_upgrade (machine 0) config busy request refl refl).0

-- A start failed at time 3.
abbrev failed : State (machine 9000000000)
failed = record {
  manager = record (new (machine 9000000000) config none) {
    last_start_failure = some 3;
    child = none;
  };
  world = 4;
}

ensure_backs_off_example :
    (ensure_ready (machine 9000000000) config failed).1.manager.state ≡ degraded
unfolding new validated_listen_url start_backoff_deadline is_managed_listen_url strip_unix_scheme
    is_valid_unix_socket_path
ensure_backs_off_example =
    (ensure_backs_off (machine 9000000000) config failed "unix:///tmp/a.sock" refl refl "refused"
      5000000003 refl refl (omega arith)).2

wait_for_child_exit_enough_example :
    let begun = (now (machine 5) (fresh 5)).1 in
    wait_for_child_exit_loop
      (machine 5)
      (9 + (secs 2 / millis 50 + 2))
      7
      ((machine 5).clock begun.world + secs 2)
      begun
    ≡ wait_for_child_exit (machine 5) 7 (secs 2) (fresh 5)
wait_for_child_exit_enough_example =
    wait_for_child_exit_enough (machine 5) (machine-IsForward 5) 7 (secs 2) 9 (fresh 5)
