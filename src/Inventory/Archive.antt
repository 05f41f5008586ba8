-- ===== src/Inventory/Archive.antt =====
-- The threads of a session that an archive request is about, page by page
-- (crates/agent/src/session_inventory.rs). The app-server's answer to a list request, the local time
-- budget and the blank test of `str::trim` are parameters.
pub mod Matches
pub mod Pages
pub mod Resolve
use chaop.Base.{
  ℕ, zero, suc, ◌+◌, String, str_eq, Bool, true, false, not, ◌&&◌, ◌||◌, Option, none, some,
  or_else, is_some, is_some_and, List, [], ◌∷◌, ◌++◌, if◌then◌else◌, Result, ok, err,
}
use chaop.Json.{Value, null, string, array, object, Items, nil, cons, get, as_str}

pub record AppServerArchivePageMatches : Type 0 where
  pub exact_thread_id : Option String
  pub session_thread_ids : List String

pub record AppServerArchiveCompletePageScan : Type 0 where
  pub thread_ids : List String
  pub matched_exact_thread : Bool

pub data AppServerArchivePageScan : Type 0 where
  complete : AppServerArchiveCompletePageScan → AppServerArchivePageScan
  exhausted : List String → AppServerArchivePageScan

abbrev pub app_server_archive_sync_max_pages_per_state : ℕ
app_server_archive_sync_max_pages_per_state = 2

abbrev and_get : String → Option Value → Option Value
and_get key none = none
and_get key (some v) = get key v

abbrev pub as_array : Option Value → Option Items
as_array (some (array items)) = some items
as_array v = none

unfoldable pub app_server_thread_list_data : Value → Option Items
app_server_thread_list_data value = as_array (and_get "data" (get "result" value))

-- A blank cursor counts as none.
unfoldable pub app_server_thread_list_next_cursor : (String → Bool) → Value → Option String
app_server_thread_list_next_cursor is_blank value =
    elim (as_str (and_get "nextCursor" (get "result" value))) [
      | none ↦ none
      | some cursor ↦ if is_blank cursor then none else some cursor
    ]

abbrev pub text_is : Option String → String → Bool
text_is v expected = is_some_and v (λ s. str_eq s expected)

abbrev pub add_session : String → AppServerArchivePageMatches → AppServerArchivePageMatches
add_session id found = record found { session_thread_ids = id ∷ found.session_thread_ids }

-- What a thread's id and session id add to the matches of the threads behind it.
unfoldable pub match_thread :
    Option String
    → Option String
    → String
    → AppServerArchivePageMatches
    → AppServerArchivePageMatches
match_thread none session_id requested_id later = later
match_thread (some thread_id) session_id requested_id later =
    if str_eq thread_id requested_id
    then (if text_is session_id requested_id
        then add_session thread_id later
        else record { exact_thread_id = some thread_id; session_thread_ids = [] })
    else (if text_is session_id requested_id then add_session thread_id later else later)

-- The threads of a page in their order: those after an exact match are not looked at.
unfoldable pub archive_matches : Items → String → AppServerArchivePageMatches
unfolding match_thread
archive_matches nil requested_id = record { exact_thread_id = none; session_thread_ids = [] }
archive_matches (cons thread rest) requested_id =
    match_thread (as_str (get "id" thread)) (as_str (get "sessionId" thread)) requested_id
      (archive_matches rest requested_id)

unfoldable pub app_server_archive_thread_ids_from_response :
    Value → String → AppServerArchivePageMatches
unfolding archive_matches app_server_thread_list_data
app_server_archive_thread_ids_from_response value requested_id =
    elim (app_server_thread_list_data value) [
      | none ↦ record { exact_thread_id = none; session_thread_ids = [] }
      | some threads ↦ archive_matches threads requested_id
    ]

unfoldable pub identity_keys : Items → List String
identity_keys nil = []
identity_keys (cons thread rest) =
    elim (or_else (as_str (get "id" thread)) (as_str (get "sessionId" thread))) [
      | none ↦ identity_keys rest
      | some key ↦ key ∷ identity_keys rest
    ]

unfoldable pub app_server_thread_identity_keys_from_response : Value → List String
unfolding identity_keys app_server_thread_list_data
app_server_thread_identity_keys_from_response value = elim (app_server_thread_list_data value) [
  | none ↦ []
  | some threads ↦ identity_keys threads
]

-- `HashSet::contains`, and the texts of a list that are new to a set, each once.
unfoldable pub contains : String → List String → Bool
contains x [] = false
contains x (y ∷ ys) = str_eq y x || contains x ys

-- `HashSet::insert` for each text, which are added behind the set's.
unfoldable pub insert_all : List String → List String → List String
unfolding contains
insert_all set [] = set
insert_all set (x ∷ xs) =
    if contains x set then insert_all set xs else insert_all (set ++ (x ∷ [])) xs

unfoldable pub any_new : List String → List String → Bool
unfolding contains
any_new set [] = false
any_new set (x ∷ xs) = not (contains x set) || any_new set xs

-- The app-server behind its socket: whether the time budget is spent, and the answer to a list
-- request with a number, a cursor and the filter.
pub record AppServer : Type 1 where
  pub World : Type 0
  pub is_blank : String → Bool
  pub over_budget : World → Bool × World
  pub list_threads : ℕ → Option String → Option Bool → World → Result Value String × World

-- The state of a scan; the texts of `seen_match_thread_ids` are those of `session_thread_ids`.
pub record Scanner (World : Type 0) : Type 0 where
  pub world : World
  pub next_request_id : ℕ
  pub seen_threads : List String
  pub session_thread_ids : List String
  pub seen_cursors : List String
  pub cursor : Option String

abbrev pub items_or_none : Option Items → Items
items_or_none none = nil
items_or_none (some items) = items

abbrev found : List String → Bool → Option AppServerArchivePageScan
found ids exact = some (complete (record { thread_ids = ids; matched_exact_thread = exact }))

-- The end of a page's turn: to go on there must be a cursor that was not used, and a thread on the
-- page that no earlier page had.
unfoldable pub next_page :
    {World : Type 0}
    → Option String
    → Items
    → List String
    → Scanner World
    → Option AppServerArchivePageScan × Scanner World
unfolding any_new insert_all contains
next_page none items keys s = (found s.session_thread_ids false, s)
next_page (some cursor) nil keys s = (found s.session_thread_ids false, s)
next_page (some cursor) (cons thread rest) keys s =
    let seen = record s { seen_threads = insert_all s.seen_threads keys } in
    if not (any_new s.seen_threads keys) || contains cursor s.seen_cursors
    then (found s.session_thread_ids false, seen)
    else (none, record seen { cursor = some cursor; seen_cursors = cursor ∷ s.seen_cursors })

module _ (server : AppServer) where
  -- What a page that was read leaves: an end, or another page to read.
  unfoldable pub read_page :
      Value → String → Scanner server.World → Option AppServerArchivePageScan × Scanner server.World
  unfolding app_server_archive_thread_ids_from_response
      app_server_thread_identity_keys_from_response app_server_thread_list_next_cursor
      app_server_thread_list_data next_page insert_all
  read_page response requested_id s =
      let matches = app_server_archive_thread_ids_from_response response requested_id in
      elim matches.exact_thread_id [
        | some id ↦ (found (id ∷ []) true, s)
        | none ↦
            next_page (app_server_thread_list_next_cursor server.is_blank response)
              (items_or_none (app_server_thread_list_data response))
              (app_server_thread_identity_keys_from_response response)
              (record s {
                session_thread_ids = insert_all s.session_thread_ids matches.session_thread_ids;
              })
      ]

  -- The answer to a list request: its number is used up by a response.
  unfoldable pub read_answer :
      Result Value String
      → String
      → Scanner server.World
      → Result (Option AppServerArchivePageScan) String × Scanner server.World
  unfolding read_page
  read_answer (err error) requested_id s = (err error, s)
  read_answer (ok response) requested_id s =
      let (scan, s') =
        read_page response requested_id (record s { next_request_id = s.next_request_id + 1 }) in
      (ok scan, s')

  -- One turn of the loop.
  unfoldable pub scan_page :
      String
      → Option Bool
      → Scanner server.World
      → Result (Option AppServerArchivePageScan) String × Scanner server.World
  unfolding read_answer
  scan_page requested_id archived_filter s =
      let (late, w) = server.over_budget s.world in
      if late
      then (err "app-server request exceeded local time budget", record s { world = w })
      else let (answer, w') = server.list_threads s.next_request_id s.cursor archived_filter w in
        read_answer answer requested_id (record s { world = w' })

  unfoldable pub scan_pages :
      ℕ
      → String
      → Option Bool
      → Scanner server.World
      → Result AppServerArchivePageScan String × Scanner server.World
  unfolding scan_page
  scan_pages zero requested_id archived_filter s = (ok (exhausted s.session_thread_ids), s)
  scan_pages (suc left) requested_id archived_filter s =
      let (turn, s') = scan_page requested_id archived_filter s in
      let rest = scan_pages left requested_id archived_filter s' in
      elim turn [ err error ↦ (err error, s') | ok none ↦ rest | ok (some scan) ↦ (ok scan, s') ]

  -- `find_app_server_thread_ids_in_pages`, with the number of the next request in and out.
  unfoldable pub find_app_server_thread_ids_in_pages :
      String
      → Option Bool
      → ℕ
      → server.World
      → Result AppServerArchivePageScan String × Scanner server.World
  unfolding scan_pages
  find_app_server_thread_ids_in_pages thread_id archived_filter next_request_id world =
      scan_pages app_server_archive_sync_max_pages_per_state thread_id archived_filter (record {
        world = world;
        next_request_id = next_request_id;
        seen_threads = [];
        session_thread_ids = [];
        seen_cursors = [];
        cursor = none;
      })
