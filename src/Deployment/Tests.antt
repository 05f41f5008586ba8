-- ===== src/Deployment/Tests.antt =====
-- The checks of crates/agent/src/main.rs at concrete inputs.
use chaop.Base.{◌≡◌, refl, ℕ, String, true, false, none, some, [], ◌∷◌, ok, u64_max, ◌+◌}
use chaop.Config.{
  AgentConfig, default_execution, default_session_inventory, default_managed_app_server,
}
use chaop.Config.Url.{is_managed_listen_url, strip_unix_scheme, is_valid_unix_socket_path}
use chaop.Manager.Host.{Host}
use chaop.Manager.Runtime.{new}
use chaop.Manager.Process.{validated_listen_url}
use chaop.Deployment.{app_server_health_target, validate_deployment_config, arg_value}
use chaop.Deployment.Laws.{health_target-validated}

abbrev still : Host
still = record {
  World = ℕ;
  Child = ℕ;
  urls = record { parse_uri = λ url. none; parse_ip = λ host. none };
  instant_max = u64_max;
  clock = λ t. t;
  read_clock = λ t. t;
  sleep = λ d t. t + d;
  shutdown_requested = λ t. false;
  health_check = λ url timeout token t. (ok tt, t);
  try_wait = λ child t. (ok none, t);
  wait = λ child t. (ok tt, t);
  kill = λ child t. t;
  kill_group = λ child signal t. (ok tt, t);
  spawn = λ command t. (ok 7, t);
  modified = λ path t. (none, t);
}

abbrev config : AgentConfig
config = record {
  connector_name = "c";
  control_url = "wss://control";
  bootstrap_url = "https://control";
  workspace_root = "/w";
  token_file = "/t";
  spool_db = "/s";
  bootstrap_secret_file = "/b";
  execution = default_execution;
  session_inventory = record default_session_inventory {
    managed_app_server = record default_managed_app_server {
      enabled = true;
      listen_url = some "unix:///tmp/a.sock";
    };
  };
}

health_target-validated_example :
    (url : String) × (app_server_health_target still.urls config ≡ some url)
    × (validated_listen_url still (new still config none) ≡ some url)
unfolding validate_deployment_config app_server_health_target is_managed_listen_url
    strip_unix_scheme is_valid_unix_socket_path
health_target-validated_example = health_target-validated still config none refl refl

arg_value_test :
    arg_value ("agent" ∷ "--config" ∷ "a.toml" ∷ "--check" ∷ []) "--config" ≡ some "a.toml"
unfolding arg_value
arg_value_test = refl
