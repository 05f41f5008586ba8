-- ===== src/Inventory/AppServer/Threads.antt =====
-- The sessions of a thread list are those of its threads.
use chaop.Base.{
  ◌≡◌, refl, ◌∙◌, sym, ap, arith, ℕ, suc, max, ltb, Bool, true, false, ◌&&◌, ◌||◌, String, str_eq,
  str_eq_iff, Option, none, some, is_some, is_some_and, List, [], ok, ℤ, has_key, saturating_add,
  u64_max,
}
use chaop.Json.{Value, Items, nil, cons, get}
use chaop.Inventory.Title.{is_blank}
use chaop.Inventory.Archive.{app_server_thread_list_data, app_server_thread_list_next_cursor}
use chaop.Inventory.Sessions.{AppServerSession, Read}
use chaop.Inventory.Report.{AppServerSessionInventory}
use chaop.Inventory.Report.Drafts.{and_read_cases}
use chaop.Inventory.AppServer.{
  is_object, check_data, check_cursor, and_cursor, session_key, app_server_thread_id,
  app_server_thread_session_id, add_thread, add_threads, app_server_sessions_from_response,
  check_threads, validate_app_server_thread_list_response, load_app_server_sessions_with_auth,
  finish_load, inventory_of, count_items, data_count,
}

-- whether a thread of the list is of the session
unfoldable pub in_threads : String → Items → Bool
in_threads k nil = false
in_threads k (cons thread rest) =
    is_some_and (app_server_thread_session_id thread) (λ id. str_eq id k) || in_threads k rest

add_thread-has_key :
    (floor : String → Option ℤ) (k : String) (thread : Value) (id : Option String)
    (sessions : List AppServerSession)
    → has_key session_key k (add_thread floor thread id sessions)
      ≡ (is_some_and id (λ i. str_eq i k) || has_key session_key k sessions)
unfolding has_key add_thread
add_thread-has_key floor k thread none sessions = refl
add_thread-has_key floor k thread (some id) sessions = ground (arith, str_eq_iff id k)

pub add_threads-has_key :
    (floor : String → Option ℤ) (k : String) (threads : Items) (sessions : List AppServerSession)
    → has_key session_key k (add_threads floor threads sessions)
      ≡ (in_threads k threads || has_key session_key k sessions)
unfolding add_threads in_threads
add_threads-has_key floor k nil sessions = refl
add_threads-has_key floor k (cons thread rest) sessions =
    let id = app_server_thread_session_id thread in
    ground (
      arith,
      add_threads-has_key floor k rest (add_thread floor thread id sessions),
      add_thread-has_key floor k thread id sessions,
    )

-- whether every thread of the list is an object with an id
unfoldable pub all_identified : Items → Bool
all_identified nil = true
all_identified (cons thread rest) =
    is_object thread && is_some (app_server_thread_id thread) && all_identified rest

check_threads-identified :
    (index : ℕ) (threads : Items)
    → check_threads index threads ≡ ok tt
    → all_identified threads ≡ true
unfolding check_threads all_identified
check_threads-identified index nil h = refl
check_threads-identified index (cons thread rest) h =
    ground (arith, check_threads-identified (suc index) rest)

check_data-identified :
    (threads : Items) (cursor : Option Value)
    → check_data (some threads) cursor ≡ ok tt
    → all_identified threads ≡ true
check_data-identified threads cursor h =
    let (u, checked, later) =
      and_read_cases (check_threads 0 threads) (λ u. check_cursor cursor) tt h in
    check_threads-identified 0 threads checked

validate-identified :
    (value : Value) (threads : Items)
    → app_server_thread_list_data value ≡ some threads
    → validate_app_server_thread_list_response value ≡ ok tt
    → all_identified threads ≡ true
unfolding validate_app_server_thread_list_response
validate-identified value threads h k =
    let cursor = and_cursor (get "result" value) in
    check_data-identified threads cursor (ap (λ found. check_data found cursor) (sym h) ∙ k)

sessions-in_threads :
    (floor : String → Option ℤ) (value : Value) (threads : Items) (k : String)
    → app_server_thread_list_data value ≡ some threads
    → has_key session_key k (app_server_sessions_from_response floor value) ≡ in_threads k threads
unfolding app_server_sessions_from_response has_key
sessions-in_threads floor value threads k h =
    rw (h) (ground (arith, add_threads-has_key floor k threads []))

load-finish :
    (floor : String → Option ℤ) (list_threads : ℕ → Read Value) (limit : ℕ) (value : Value)
    → list_threads (saturating_add u64_max (max limit 1) 1) ≡ ok value
    → load_app_server_sessions_with_auth floor list_threads limit
      ≡ finish_load floor (max limit 1) value
unfolding load_app_server_sessions_with_auth
load-finish floor list_threads limit value answers = rw (answers)

finish_load-made :
    (floor : String → Option ℤ) (n : ℕ) (value : Value) (inventory : AppServerSessionInventory)
    → finish_load floor n value ≡ ok inventory
    → (validate_app_server_thread_list_response value ≡ ok tt)
      × (inventory_of floor n value ≡ inventory)
unfolding finish_load
finish_load-made floor n value inventory h =
    let (u, valid, made) =
      and_read_cases (validate_app_server_thread_list_response value)
        (λ u. ok (inventory_of floor n value)) inventory h in
    (valid, cc (made))

inventory_of-sessions :
    (floor : String → Option ℤ) (n : ℕ) (value : Value)
    → (inventory_of floor n value).sessions ≡ app_server_sessions_from_response floor value
unfolding inventory_of
inventory_of-sessions floor n value = refl

inventory_of-truncated :
    (floor : String → Option ℤ) (n : ℕ) (value : Value) (threads : Items)
    → app_server_thread_list_data value ≡ some threads
    → (inventory_of floor n value).truncated
      ≡ (ltb n (count_items threads) || is_some (app_server_thread_list_next_cursor is_blank value))
unfolding inventory_of
inventory_of-truncated floor n value threads h =
    ap
      (λ found.
        ltb n (data_count found) || is_some (app_server_thread_list_next_cursor is_blank value))
      h

-- When an inventory is made from an app-server's answer with a list of threads, every thread was an object
-- with an id, the inventory lists a session exactly when one of the threads is of it, and it counts
-- as cut exactly when there are more threads than the limit (or than one) or a further page.
pub load_lists :
    (floor : String → Option ℤ) (list_threads : ℕ → Read Value) (limit : ℕ) (value : Value)
    (threads : Items) (inventory : AppServerSessionInventory) (k : String)
    → list_threads (saturating_add u64_max (max limit 1) 1) ≡ ok value
    → app_server_thread_list_data value ≡ some threads
    → load_app_server_sessions_with_auth floor list_threads limit ≡ ok inventory
    → (all_identified threads ≡ true)
      × (has_key session_key k inventory.sessions ≡ in_threads k threads)
      × (inventory.truncated ≡ (
          ltb (max limit 1) (count_items threads)
          || is_some (app_server_thread_list_next_cursor is_blank value)))
load_lists floor list_threads limit value threads inventory k answers lists h =
    let n = max limit 1 in
    let (valid, made) =
      finish_load-made floor n value inventory
        (sym (load-finish floor list_threads limit value answers) ∙ h) in
    (
      validate-identified value threads lists valid,
      ap (λ x. has_key session_key k x.sessions) (sym made)
          ∙ ap (has_key session_key k) (inventory_of-sessions floor n value)
          ∙ sessions-in_threads floor value threads k lists,
      ap (λ x. x.truncated) (sym made) ∙ inventory_of-truncated floor n value threads lists,
    )
