-- ===== src/Config/Tests.antt =====
-- The configuration and its URL tests (crates/agent/src/config.rs and
-- crates/agent/src/app_server_manager.rs) at concrete inputs.
use chaop.Base.{◌≡◌, refl, String, true, false, Option, none, some}
use chaop.Config.{AgentConfig, default_execution, default_session_inventory, validate}
use chaop.Config.Url.{
  Urls, Uri, is_managed_listen_url, is_loopback_host, eq_ignore_ascii_case, strip_unix_scheme,
  websocket_uri, is_valid_unix_socket_path, uses_wss, uses_remote_plaintext_ws,
}
use chaop.Config.Laws.{validate_token, validate_plaintext}

abbrev uri : String → String → String → Uri
uri scheme host authority = record {
  scheme_str = some scheme;
  host = some host;
  authority = some authority;
}

-- A parser that knows one text, and a network where each address is a loopback one.
abbrev knows : Uri → Urls
knows u = record { parse_uri = λ url. some u; parse_ip = λ host. some true }

abbrev loopback : Urls
loopback = knows (uri "WS" "127.0.0.1" "127.0.0.1:4500")

abbrev with_url : Option String → Option String → AgentConfig
with_url url token = record {
  connector_name = "c";
  control_url = "wss://control";
  bootstrap_url = "https://control";
  workspace_root = "/w";
  token_file = "/t";
  spool_db = "/s";
  bootstrap_secret_file = "/b";
  execution = default_execution;
  session_inventory = record default_session_inventory {
    app_server_url = url;
    app_server_auth_token_file = token;
  };
}

abbrev remote : Urls
remote = knows (uri "wss" "example.org" "example.org")

validate_token_example :
    (with_url (some "wss://example.org") (some "/token")
      ).session_inventory.managed_app_server.enabled
    ≡ false
unfolding validate uses_wss uses_remote_plaintext_ws eq_ignore_ascii_case
validate_token_example =
    (validate_token remote (with_url (some "wss://example.org") (some "/token")) "/token" refl
      refl).0

validate_plaintext_example : is_loopback_host loopback "127.0.0.1" ≡ true
unfolding validate uses_remote_plaintext_ws is_loopback_host eq_ignore_ascii_case
validate_plaintext_example =
    validate_plaintext loopback (with_url (some "ws://127.0.0.1:4500") none) "ws://127.0.0.1:4500"
      "127.0.0.1" (uri "WS" "127.0.0.1" "127.0.0.1:4500") refl refl refl refl refl

-- Port 0 is refused, and so is a user in front of the host.
port_zero :
    is_managed_listen_url (knows (uri "ws" "127.0.0.1" "127.0.0.1:0")) "ws://127.0.0.1:0" ≡ false
unfolding is_managed_listen_url strip_unix_scheme websocket_uri
port_zero = refl

root_socket : is_managed_listen_url loopback "unix:///" ≡ false
unfolding is_managed_listen_url strip_unix_scheme is_valid_unix_socket_path
root_socket = refl
