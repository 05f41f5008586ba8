-- ===== src/Inventory/AppServer.antt =====
-- The sessions of an app-server's thread list (crates/agent/src/session_inventory.rs). The connection
-- is a parameter: the answer to a list request for a number of threads.
pub mod Threads
use chaop.Base.{
  ℕ, zero, suc, ◌+◌, ltb, leb, max, Bool, true, false, not, ◌||◌, String, ◌str++◌, Option, none,
  some, or_else, is_some, List, [], ◌∷◌, if◌then◌else◌, Result, ok, err, saturating_add, u64_max, ℤ,
  pos, has_key,
}
use chaop.Json.{
  Value, null, bool, number, other_number, string, array, object, Items, nil, cons, get, as_str,
}
use chaop.Connector.Instances.Text.{decimal}
use chaop.Inventory.Archive.{app_server_thread_list_data, app_server_thread_list_next_cursor}
use chaop.Inventory.Calendar.{unix_seconds_to_iso}
use chaop.Inventory.Title.{compact_title, is_blank}
use chaop.Inventory.Sessions.{AppServerSession, Read, and_read}
use chaop.Inventory.Report.{AppServerSessionInventory}

abbrev filled : Option String → Option String
filled none = none
filled (some id) = if is_blank id then none else some id

unfoldable pub app_server_thread_id : Value → Option String
unfolding get is_blank
app_server_thread_id thread = filled (as_str (get "id" thread))

unfoldable pub app_server_thread_session_id : Value → Option String
unfolding get is_blank app_server_thread_id
app_server_thread_session_id thread =
    or_else (filled (as_str (get "sessionId" thread))) (app_server_thread_id thread)

abbrev i64_max : ℕ
i64_max = 9223372036854775807

-- A number above the largest `i64` is read as a float, and its conversion stops at that largest one.
-- How any other number is read, or floored, is a parameter.
unfoldable pub value_to_unix_seconds : (String → Option ℤ) → Value → Option ℤ
value_to_unix_seconds floor (number n) = if leb n i64_max then some (pos n) else some (pos i64_max)
value_to_unix_seconds floor (other_number text) = floor text
value_to_unix_seconds floor v = none

abbrev and_seconds : (String → Option ℤ) → Option Value → Option ℤ
and_seconds floor none = none
and_seconds floor (some v) = value_to_unix_seconds floor v

abbrev and_iso : Option ℤ → Option String
and_iso none = none
and_iso (some seconds) = unix_seconds_to_iso seconds

unfoldable pub app_server_thread_timestamp : (String → Option ℤ) → Value → Option String
unfolding get value_to_unix_seconds unix_seconds_to_iso
app_server_thread_timestamp floor thread = and_iso (
    or_else (and_seconds floor (get "updatedAt" thread))
      (and_seconds floor (get "createdAt" thread)))

abbrev pub session_key : AppServerSession → String
session_key s = s.session_id

-- `sessions.entry(id).or_insert_with(…)`
unfoldable pub add_thread :
    (String → Option ℤ) → Value → Option String → List AppServerSession → List AppServerSession
unfolding has_key get compact_title app_server_thread_timestamp
add_thread floor thread none sessions = sessions
add_thread floor thread (some id) sessions =
    if has_key session_key id sessions
    then sessions
    else record {
      session_id = id;
      name = compact_title (as_str (get "name" thread));
      cwd = as_str (get "cwd" thread);
      updated_at = app_server_thread_timestamp floor thread;
    }
      ∷ sessions

unfoldable pub add_threads :
    (String → Option ℤ) → Items → List AppServerSession → List AppServerSession
unfolding add_thread app_server_thread_session_id
add_threads floor nil sessions = sessions
add_threads floor (cons thread rest) sessions =
    add_threads floor rest (add_thread floor thread (app_server_thread_session_id thread) sessions)

abbrev of_data : (String → Option ℤ) → Option Items → List AppServerSession
of_data floor none = []
of_data floor (some threads) = add_threads floor threads []

unfoldable pub app_server_sessions_from_response :
    (String → Option ℤ) → Value → List AppServerSession
unfolding add_threads app_server_thread_list_data
app_server_sessions_from_response floor value = of_data floor (app_server_thread_list_data value)

abbrev pub is_object : Value → Bool
is_object (object fields) = true
is_object v = false

abbrev pub Checked : Type 0
Checked = Result (Unit {0}) String

abbrev pub at_index : ℕ → String → String
at_index index problem = "app-server thread/list response data[" str++ (decimal index str++ problem)

unfoldable pub check_threads : ℕ → Items → Checked
unfolding app_server_thread_id decimal
check_threads index nil = ok tt
check_threads index (cons thread rest) =
    let later = check_threads (suc index) rest in
    if not (is_object thread)
    then err (at_index index "] was not an object")
    else if not (is_some (app_server_thread_id thread))
    then err (at_index index "] did not include thread.id")
    else later

abbrev pub check_cursor : Option Value → Checked
check_cursor none = ok tt
check_cursor (some null) = ok tt
check_cursor (some (string cursor)) =
    if is_blank cursor
    then err "app-server thread/list response included empty nextCursor"
    else ok tt
check_cursor (some v) = err "app-server thread/list response included non-string nextCursor"

abbrev pub and_cursor : Option Value → Option Value
and_cursor none = none
and_cursor (some result) = get "nextCursor" result

abbrev pub check_data : Option Items → Option Value → Checked
check_data none cursor = err "app-server thread/list response did not include result.data"
check_data (some threads) cursor = and_read (check_threads 0 threads) (λ u. check_cursor cursor)

unfoldable pub validate_app_server_thread_list_response : Value → Checked
unfolding get check_threads app_server_thread_list_data is_blank
validate_app_server_thread_list_response value =
    check_data (app_server_thread_list_data value) (and_cursor (get "result" value))

abbrev pub count_items : Items → ℕ
count_items nil = 0
count_items (cons v vs) = suc (count_items vs)

abbrev pub data_count : Option Items → ℕ
data_count none = 0
data_count (some threads) = count_items threads

unfoldable pub inventory_of : (String → Option ℤ) → ℕ → Value → AppServerSessionInventory
unfolding app_server_sessions_from_response app_server_thread_list_data
    app_server_thread_list_next_cursor is_blank
inventory_of floor session_limit value = record {
  sessions = app_server_sessions_from_response floor value;
  truncated =
      ltb session_limit (data_count (app_server_thread_list_data value))
      || is_some (app_server_thread_list_next_cursor is_blank value);
}

unfoldable pub finish_load : (String → Option ℤ) → ℕ → Value → Read AppServerSessionInventory
unfolding inventory_of validate_app_server_thread_list_response
finish_load floor session_limit value =
    and_read (validate_app_server_thread_list_response value)
      (λ checked. ok (inventory_of floor session_limit value))

unfoldable pub load_app_server_sessions_with_auth :
    (String → Option ℤ) → (ℕ → Read Value) → ℕ → Read AppServerSessionInventory
unfolding finish_load
load_app_server_sessions_with_auth floor list_threads limit =
    let session_limit = max limit 1 in
    and_read (list_threads (saturating_add u64_max session_limit 1))
      (finish_load floor session_limit)
