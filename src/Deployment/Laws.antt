-- ===== src/Deployment/Laws.antt =====
-- What the checks of crates/agent/src/main.rs promise to the manager of the app-server.
use chaop.Base.{ℕ, ◌≡◌, String, true, Option, none, some, arith}
use chaop.Config.{AgentConfig}
use chaop.Deployment.{app_server_health_target, validate_deployment_config}
use chaop.Manager.Host.{Host}
use chaop.Manager.Runtime.{new}
use chaop.Manager.Process.{validated_listen_url}

-- In managed mode a configuration that passes the deployment checks has a URL whose health the
-- command line checks, and it is the one that a new manager listens on, at every marker time.
pub health_target-validated :
    (host : Host) (config : AgentConfig) (marker : Option ℕ)
    → config.session_inventory.managed_app_server.enabled ≡ true
    → validate_deployment_config host.urls config ≡ none
    → (url : String) × (app_server_health_target host.urls config ≡ some url)
      × (validated_listen_url host (new host config marker) ≡ some url)
unfolding app_server_health_target validate_deployment_config validated_listen_url new
health_target-validated host config marker managed valid = ground arith
