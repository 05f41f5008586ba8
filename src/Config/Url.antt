-- ===== src/Config/Url.antt =====
-- The URL tests of crates/agent/src/config.rs and crates/agent/src/app_server_manager.rs. The URI
-- parser of the `http` crate and the parser of IP addresses are parameters; the tests on their
-- results and on the text itself are the source's.
pub mod Nesting
use Prim.Native.Char.{code}
use Prim.Native.String.{len, slice}
use text.Mathlib.Text.{find?, get?}
use mathlib.Core.List.{reverse}
use chaop.Base.{
  ℕ, ◌+◌, ◌-◌, ◌*◌, String, Bool, true, false, not, ◌&&◌, ◌||◌, ◌==◌, ltb, leb, Option, none, some,
  List, [], ◌∷◌, map, if◌then◌else◌, is_some_and, unwrap_or,
}

-- What the code reads of a parsed URI: its scheme, its host and its authority.
pub record Uri : Type 0 where
  pub scheme_str : Option String
  pub host : Option String
  pub authority : Option String

-- `str::parse::<Uri>`, and `parse::<IpAddr>` with `is_loopback` of its result (over code points).
pub record Urls : Type 0 where
  pub parse_uri : String → Option Uri
  pub parse_ip : List ℕ → Option Bool

abbrev pub codes : String → List ℕ
codes String.[] = []
codes (String.◌∷◌ c s) = code c ∷ codes s

unfoldable pub same : List ℕ → List ℕ → Bool
same [] [] = true
same [] (y ∷ ys) = false
same (x ∷ xs) [] = false
same (x ∷ xs) (y ∷ ys) = x == y && same xs ys

unfoldable pub to_lower : ℕ → ℕ
to_lower c = if leb b'A' c && leb c b'Z' then c + 32 else c

unfoldable pub eq_ignore_ascii_case : List ℕ → List ℕ → Bool
unfolding same to_lower
eq_ignore_ascii_case s t = same (map to_lower s) (map to_lower t)

unfoldable pub trim_start_matches : ℕ → List ℕ → List ℕ
trim_start_matches c [] = []
trim_start_matches c (x ∷ xs) = if x == c then trim_start_matches c xs else x ∷ xs

unfoldable pub trim_end_matches : ℕ → List ℕ → List ℕ
unfolding trim_start_matches
trim_end_matches c s = reverse (trim_start_matches c (reverse s))

-- An IPv6 host stands in brackets in a URI.
unfoldable pub trim_brackets : List ℕ → List ℕ
unfolding trim_end_matches
trim_brackets s = trim_end_matches b']' (trim_start_matches b'[' s)

abbrev pub scheme_is : Uri → String → Bool
scheme_is uri expected =
    is_some_and uri.scheme_str (λ scheme. eq_ignore_ascii_case (codes scheme) (codes expected))

-- `rsplit_once(c)`, the part behind the last `c`.
after_last : ℕ → List ℕ → Option (List ℕ)
after_last c [] = none
after_last c (x ∷ xs) = elim (after_last c xs) [
  | some rest ↦ some rest
  | none ↦ if x == c then some xs else none
]

-- `split_once(c)`, the part behind the first `c`.
after_first : ℕ → List ℕ → Option (List ℕ)
after_first c [] = none
after_first c (x ∷ xs) = let rest = after_first c xs in if x == c then some xs else rest

strip_prefix : ℕ → List ℕ → Option (List ℕ)
strip_prefix c [] = none
strip_prefix c (x ∷ xs) = if x == c then some xs else none

-- The port behind the host, `[…]` taken whole.
port_of_host : List ℕ → Option (List ℕ)
unfolding after_last after_first strip_prefix
port_of_host host_and_port = elim (strip_prefix b'[' host_and_port) [
  | some bracketed ↦ elim (after_first b']' bracketed) [
    | none ↦ none
    | some suffix ↦ strip_prefix b':' suffix
  ]
  | none ↦ after_last b':' host_and_port
]

-- `app_server_explicit_port`.
unfoldable pub explicit_port : Uri → Option (List ℕ)
unfolding port_of_host
explicit_port uri = elim uri.authority [
  | none ↦ none
  | some authority ↦ port_of_host (unwrap_or (after_last b'@' (codes authority)) (codes authority))
]

-- `parse::<u16>`: an optional `+`, then digits, up to 65535.
parse_digits : ℕ → List ℕ → Option ℕ
parse_digits acc [] = some acc
parse_digits acc (c ∷ cs) =
    let rest = parse_digits (acc * 10 + (c - b'0')) cs in
    if leb b'0' c && leb c b'9' && leb (acc * 10 + (c - b'0')) 65535 then rest else none

parse_nonempty : List ℕ → Option ℕ
unfolding parse_digits
parse_nonempty [] = none
parse_nonempty (c ∷ cs) = parse_digits 0 (c ∷ cs)

pub parse_u16 : List ℕ → Option ℕ
unfolding parse_nonempty
parse_u16 [] = none
parse_u16 (c ∷ cs) = if c == b'+' then parse_nonempty cs else parse_nonempty (c ∷ cs)

unfoldable pub lowercase : List ℕ → List ℕ
unfolding to_lower
lowercase s = map to_lower s

-- `is_loopback_host`, and the same lines in config.rs.
unfoldable pub is_loopback_host : Urls → String → Bool
unfolding lowercase trim_brackets same
is_loopback_host urls host =
    let normalised = lowercase (trim_brackets (codes host)) in
    same normalised (codes "localhost") || is_some_and (urls.parse_ip normalised) (λ b. b)

-- `app_server_url_uses_wss`.
unfoldable pub uses_wss : Urls → String → Bool
uses_wss urls url = is_some_and (urls.parse_uri url) (λ uri. scheme_is uri "wss")

-- `app_server_url_uses_remote_plaintext_ws`.
unfoldable pub uses_remote_plaintext_ws : Urls → String → Bool
uses_remote_plaintext_ws urls url = elim (urls.parse_uri url) [
  | none ↦ false
  | some uri ↦
      if not (scheme_is uri "ws")
      then false
      else is_some_and uri.host (λ host. not (is_loopback_host urls host))
]

-- `app_server_websocket_uri`.
unfoldable pub websocket_uri : Urls → String → Option Uri
unfolding explicit_port parse_u16
websocket_uri urls url = elim (urls.parse_uri url) [
  | none ↦ none
  | some uri ↦
      if not (scheme_is uri "ws") && not (scheme_is uri "wss") then none else elim uri.host [
        | none ↦ none
        | some host ↦ elim (explicit_port uri) [
          | none ↦ some uri
          | some port ↦ elim (parse_u16 port) [
            | none ↦ none
            | some n ↦ if n == 0 then none else some uri
          ]
        ]
      ]
]

-- `strip_unix_scheme`: what follows `unix://`, in any case.
unfoldable pub strip_unix_scheme : String → Option String
unfolding eq_ignore_ascii_case
strip_unix_scheme url = elim (get? url 0 7) [
  | none ↦ none
  | some prefix ↦
      if eq_ignore_ascii_case (codes prefix) (codes "unix://")
      then some (slice url 7 (len url))
      else none
]

-- `Path::new(p) == Path::new("/")` compares components: behind the first slash stand slashes and
-- single dots only. The flag says whether a component may begin here.
only_root : Bool → List ℕ → Bool
only_root fresh [] = true
only_root fresh (c ∷ cs) = elim (c == b'/') [
  | true ↦ only_root true cs
  | false ↦ elim (fresh && c == b'.') [ true ↦ only_root false cs | false ↦ false ]
]

abbrev pub unix_socket_path_max_bytes : ℕ
unix_socket_path_max_bytes = 107

-- `is_valid_unix_socket_path`; an absolute path begins with a slash.
unfoldable pub is_valid_unix_socket_path : String → Bool
unfolding only_root strip_prefix
is_valid_unix_socket_path path = elim (strip_prefix b'/' (codes path)) [
  | none ↦ false
  | some rest ↦ not (only_root true rest) && leb (len path) unix_socket_path_max_bytes
]

unfoldable pub is_app_server_url : Urls → String → Bool
is_app_server_url urls url = elim (strip_unix_scheme url) [
  | some path ↦ is_valid_unix_socket_path path
  | none ↦ elim (websocket_uri urls url) [
    | none ↦ false
    | some uri ↦ if scheme_is uri "wss" then true else is_some_and uri.host (is_loopback_host urls)
  ]
]

unfoldable pub is_local_listen_url : Urls → String → Bool
is_local_listen_url urls listen_url = elim (strip_unix_scheme listen_url) [
  | some path ↦ is_valid_unix_socket_path path
  | none ↦ elim (websocket_uri urls listen_url) [
    | none ↦ false
    | some uri ↦ is_some_and uri.host (is_loopback_host urls)
  ]
]

contains : ℕ → List ℕ → Bool
contains c [] = false
contains c (x ∷ xs) = x == c || contains c xs

-- The tests of `is_managed_listen_url` behind the URI's authority and the place of `://`.
managed_endpoint : Urls → String → Uri → String → ℕ → Bool
unfolding contains trim_brackets parse_u16
managed_endpoint urls listen_url uri authority scheme_separator =
    if not (scheme_is uri "ws")
      || contains b'@' (codes authority)
      || not (scheme_separator + 3 + len authority == len listen_url)
    then false
    else elim uri.host [
      | none ↦ false
      | some host ↦ elim (urls.parse_ip (trim_brackets (codes host))) [
        | none ↦ false
        | some loopback ↦
            if not loopback
            then false
            else is_some_and (explicit_port uri) (λ port. is_some_and (parse_u16 port) (ltb 0))
      ]
    ]

unfoldable pub is_managed_listen_url : Urls → String → Bool
unfolding managed_endpoint
is_managed_listen_url urls listen_url = elim (strip_unix_scheme listen_url) [
  | some path ↦ is_valid_unix_socket_path path
  | none ↦ elim (websocket_uri urls listen_url) [
    | none ↦ false
    | some uri ↦ elim uri.authority [
      | none ↦ false
      | some authority ↦ elim (find? listen_url "://") [
        | none ↦ false
        | some scheme_separator ↦ managed_endpoint urls listen_url uri authority scheme_separator
      ]
    ]
  ]
]
