-- ===== src/Config.antt =====
-- crates/agent/src/config.rs: the connector's configuration, its validation and the capabilities
-- that it advertises. Paths are texts; the TOML reader and the file system are left out.
pub mod Url
pub mod Laws
mod Tests
use chaop.Base.{
  ℕ, ◌*◌, String, Bool, true, false, not, ◌&&◌, ◌||◌, Option, none, some, List, [], ◌∷◌, ◌++◌,
  if◌then◌else◌, is_some, is_some_and,
}
use Url.{Urls, uses_wss, uses_remote_plaintext_ws}

pub data ExecutionMode : Type 0 where
  placeholder codex_exec app_server : ExecutionMode

pub record ManagedAppServerConfig : Type 0 where
  pub enabled : Bool
  pub listen_url : Option String
  pub extra_args : List String
  pub lock_cwd_to_workspace_root : Bool
  pub startup_timeout_seconds : ℕ
  pub restart_backoff_seconds : ℕ
  pub drain_timeout_seconds : ℕ
  pub scheduled_restart_interval_seconds : ℕ
  pub upgrade_marker_file : Option String

pub record SessionInventoryConfig : Type 0 where
  pub enabled : Bool
  pub codex_home : Option String
  pub max_sessions : ℕ
  pub report_interval_seconds : ℕ
  pub app_server_url : Option String
  pub app_server_auth_token_file : Option String
  pub app_server_timeout_seconds : ℕ
  pub managed_app_server : ManagedAppServerConfig

pub record ExecutionConfig : Type 0 where
  pub mode : ExecutionMode
  pub codex_command : String
  pub codex_sandbox : String
  pub codex_profile : Option String
  pub codex_model : Option String
  pub codex_timeout_seconds : ℕ
  pub codex_output_max_bytes : ℕ
  pub extra_args : List String

pub record AgentConfig : Type 0 where
  pub connector_name : String
  pub control_url : String
  pub bootstrap_url : String
  pub workspace_root : String
  pub token_file : String
  pub spool_db : String
  pub bootstrap_secret_file : String
  pub execution : ExecutionConfig
  pub session_inventory : SessionInventoryConfig

abbrev pub default_managed_app_server : ManagedAppServerConfig
default_managed_app_server = record {
  enabled = false;
  listen_url = none;
  extra_args = [];
  lock_cwd_to_workspace_root = false;
  startup_timeout_seconds = 10;
  restart_backoff_seconds = 5;
  drain_timeout_seconds = 300;
  scheduled_restart_interval_seconds = 0;
  upgrade_marker_file = none;
}

abbrev pub default_session_inventory : SessionInventoryConfig
default_session_inventory = record {
  enabled = true;
  codex_home = none;
  max_sessions = 100;
  report_interval_seconds = 60;
  app_server_url = none;
  app_server_auth_token_file = none;
  app_server_timeout_seconds = 2;
  managed_app_server = default_managed_app_server;
}

abbrev pub default_execution : ExecutionConfig
default_execution = record {
  mode = placeholder;
  codex_command = "codex";
  codex_sandbox = "read-only";
  codex_profile = none;
  codex_model = none;
  codex_timeout_seconds = 300;
  codex_output_max_bytes = 256 * 1024;
  extra_args = [];
}

-- The cases of `ConfigError::Invalid`, each with its text in the source.
pub data Invalid : Type 0 where
  token_file_with_managed token_file_without_wss remote_plaintext_url : Invalid

-- `AgentConfig::validate`: `none` is `Ok(())`.
unfoldable pub validate : Urls → AgentConfig → Option Invalid
validate urls config =
    if managed_app_server.enabled && is_some app_server_auth_token_file
    then some token_file_with_managed
    else if is_some app_server_auth_token_file && not (is_some_and app_server_url (uses_wss urls))
    then some token_file_without_wss
    else if is_some_and app_server_url (uses_remote_plaintext_ws urls)
    then some remote_plaintext_url
    else none
  where
    open config.session_inventory use {
      managed_app_server, app_server_auth_token_file, app_server_url,
    }

abbrev is_codex_exec : ExecutionMode → Bool
is_codex_exec codex_exec = true
is_codex_exec _ = false

abbrev is_app_server : ExecutionMode → Bool
is_app_server app_server = true
is_app_server _ = false

abbrev pub Capability : Type 0
Capability = String

-- The optional groups of `AgentConfig::capabilities`, pushed in this order.
abbrev push_if : Bool → List Capability → List Capability
push_if b xs = if b then xs else []

unfoldable pub capabilities : AgentConfig → List Capability
capabilities config =
    ("placeholder_commands" ∷ "event_stream_summary" ∷ "local_spool_skeleton" ∷ [])
    ++ (push_if session_inventory.enabled
          ("host_session_inventory" ∷ "host_session_backfill_v2" ∷ [])
        ++ (push_if (is_codex_exec execution.mode) ("codex_exec" ∷ [])
            ++ (push_if (is_app_server execution.mode && has_url)
                  ("codex_app_server_exec" ∷ "host_session_app_server_ensure" ∷ [])
                ++ (push_if has_url ("app_server_threads" ∷ "app_server_archive" ∷ [])
                    ++ push_if (has_url || session_inventory.managed_app_server.enabled)
                        ("app_server_instance_state" ∷ [])))))
  where
    open config use {execution, session_inventory}

    has_url : Bool
    has_url = is_some config.session_inventory.app_server_url

pub record BootstrapRequest : Type 0 where
  pub connector_name : String
  pub hostname : String
  pub workspace_root : String
  pub capabilities_of : List Capability

pub bootstrap_request : AgentConfig → String → BootstrapRequest
unfolding capabilities
bootstrap_request config hostname = record {
  connector_name = config.connector_name;
  hostname = hostname;
  workspace_root = config.workspace_root;
  capabilities_of = capabilities config;
}
