-- ===== src/Config/Laws.antt =====
-- What a validated configuration guarantees of its app-server URL (crates/agent/src/config.rs).
use chaop.Base.{◌≡◌, String, true, false, none, some, arith, Bool-cases}
use chaop.Config.{AgentConfig, validate}
use chaop.Config.Url.{Urls, Uri, uses_wss, scheme_is, is_loopback_host, uses_remote_plaintext_ws}

-- A validated configuration with an auth token for the app-server has no managed app-server, and
-- sends the token over TLS only: its app-server URL is there and its scheme is wss.
pub validate_token :
    (urls : Urls) (config : AgentConfig) (token : String)
    → validate urls config ≡ none
    → config.session_inventory.app_server_auth_token_file ≡ some token
    → (config.session_inventory.managed_app_server.enabled ≡ false)
      × ((url : String) × (uri : Uri) × (config.session_inventory.app_server_url ≡ some url)
          × (urls.parse_uri url ≡ some uri)
          × (scheme_is uri "wss" ≡ true))
unfolding validate uses_wss
validate_token urls config token valid has_token = ground arith

-- Where the app-server URL of a validated configuration is plain ws with a host, the host is a loopback
-- one.
pub validate_plaintext :
    (urls : Urls) (config : AgentConfig) (url host : String) (uri : Uri)
    → validate urls config ≡ none
    → config.session_inventory.app_server_url ≡ some url
    → urls.parse_uri url ≡ some uri
    → scheme_is uri "ws" ≡ true
    → uri.host ≡ some host
    → is_loopback_host urls host ≡ true
unfolding validate uses_remote_plaintext_ws
validate_plaintext urls config url host uri valid has_url parsed plain has_host =
    ground (arith, Bool-cases (is_loopback_host urls host))
