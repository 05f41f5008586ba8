-- ===== src/Deployment.antt =====
-- crates/agent/src/main.rs: the checks of a configuration before it is deployed. The commands'
-- printing and the reading of files are left out.
pub mod Laws
mod Tests
use chaop.Base.{
  String, str_eq, Bool, true, false, not, Option, none, some, List, [], ◌∷◌, if◌then◌else◌, is_some,
  is_some_and, or_else,
}
use chaop.Config.{AgentConfig, SessionInventoryConfig}
use chaop.Config.Url.{Urls, is_managed_listen_url, is_app_server_url}

unfoldable pub app_server_health_target : Urls → AgentConfig → Option String
app_server_health_target urls config =
    if managed.enabled
    then elim (or_else managed.listen_url app_server_url) [
      | none ↦ none
      | some url ↦ if is_managed_listen_url urls url then some url else none
    ]
    else app_server_url
  where
    open config.session_inventory use {managed_app_server as managed, app_server_url}

-- `none` is `Ok(())`.
unfoldable pub validate_deployment_config : Urls → AgentConfig → Option String
unfolding app_server_health_target
validate_deployment_config urls config =
    if managed.enabled
    then if not (is_some (app_server_health_target urls config))
      then some "managed app-server config requires a valid local listen URL"
      else none
    else if is_some_and app_server_url (λ url. not (is_app_server_url urls url))
    then some "app-server config requires a ws://, wss://, or absolute unix:// URL"
    else none
  where
    open config.session_inventory use {managed_app_server as managed, app_server_url}

-- `arg_value`: the argument behind the first `key` that has one behind it.
unfoldable pub arg_value : List String → String → Option String
arg_value [] key = none
arg_value (a ∷ []) key = none
arg_value (a ∷ b ∷ rest) key = if str_eq a key then some b else arg_value (b ∷ rest) key
