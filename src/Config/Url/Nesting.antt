-- ===== src/Config/Url/Nesting.antt =====
-- What a validated configuration guarantees, and how the URL tests are nested.
use chaop.Base.{ℕ, String, true, ◌≡◌, List, arith}
use chaop.Config.Url.{
  Urls, is_loopback_host, is_app_server_url, is_local_listen_url, is_managed_listen_url, lowercase,
}

-- A listen address that the manager may own is local, where the parser of IP addresses ignores
-- case.
managed-local :
    (urls : Urls) (url : String)
    → ((host : List ℕ) → urls.parse_ip (lowercase host) ≡ urls.parse_ip host)
    → is_managed_listen_url urls url ≡ true
    → is_local_listen_url urls url ≡ true
unfolding is_managed_listen_url is_local_listen_url is_loopback_host
managed-local urls url case h = grind (arith, case)

-- A local listen address is an app-server URL.
local-app_server :
    (urls : Urls) (url : String)
    → is_local_listen_url urls url ≡ true
    → is_app_server_url urls url ≡ true
unfolding is_local_listen_url is_app_server_url
local-app_server urls url h = ground arith
