-- ===== src/Inventory/Archive/Pages.antt =====
-- The scan of the pages (crates/agent/src/session_inventory.rs).
use chaop.Base.{
  ℕ, zero, suc, ◌+◌, ◌≤◌, ◌≡◌, refl, arith, String, str_eq, str_eq_iff, Bool, true, false, not,
  ◌&&◌, ◌||◌, Option, none, some, List, [], ◌∷◌, ◌++◌, Result, ok, err,
}
use chaop.Json.{Value, Items, nil, cons}
use chaop.Inventory.Archive.{
  AppServer, Scanner, AppServerArchivePageScan, complete, exhausted, next_page, read_page,
  scan_page, scan_pages, insert_all, contains, read_answer, items_or_none,
  app_server_archive_thread_ids_from_response, app_server_thread_list_next_cursor,
  app_server_thread_list_data, app_server_thread_identity_keys_from_response,
  find_app_server_thread_ids_in_pages, app_server_archive_sync_max_pages_per_state,
}

-- Whether no text of a list comes twice.
unfoldable pub distinct : List String → Bool
unfolding contains
distinct [] = true
distinct (x ∷ xs) = not (contains x xs) && distinct xs

contains-snoc :
    (x y : String) (xs : List String) → contains x (xs ++ (y ∷ [])) ≡ (contains x xs || str_eq y x)
unfolding contains
contains-snoc x y [] = ground arith
contains-snoc x y (z ∷ xs) = ground (arith, contains-snoc x y xs)

distinct-snoc :
    (y : String) (xs : List String)
    → contains y xs ≡ false
    → distinct xs ≡ true
    → distinct (xs ++ (y ∷ [])) ≡ true
unfolding distinct contains
distinct-snoc y [] fresh h = refl
distinct-snoc y (x ∷ xs) fresh h =
    ground (arith, distinct-snoc y xs, contains-snoc x y xs, str_eq_iff x y, str_eq_iff y x)

distinct-insert_all :
    (set xs : List String) → distinct set ≡ true → distinct (insert_all set xs) ≡ true
unfolding insert_all
distinct-insert_all set [] h = h
distinct-insert_all set (x ∷ xs) h = ground (
  arith,
  distinct-insert_all set xs h,
  distinct-snoc x set,
  distinct-insert_all (set ++ (x ∷ [])) xs,
)

-- The thread ids that a scan ends with, whole or not.
abbrev pub ids_of : AppServerArchivePageScan → List String
ids_of (complete scan) = scan.thread_ids
ids_of (exhausted ids) = ids

module _ (server : AppServer) where
  scan_pages-requests :
      (left : ℕ) (requested : String) (filter : Option Bool) (s : Scanner server.World)
      → (scan_pages server left requested filter s).1.next_request_id ≤ s.next_request_id + left
  unfolding scan_pages scan_page read_answer read_page next_page
  scan_pages-requests zero requested filter s = ground arith
  scan_pages-requests (suc left) requested filter s =
      ground
        (arith, scan_pages-requests left requested filter (scan_page server requested filter s).1)

  next_page-ids :
      (cursor : Option String) (items : Items) (keys : List String) (s : Scanner server.World)
      (scan : AppServerArchivePageScan)
      → let r = next_page cursor items keys s in
        (r.1.session_thread_ids ≡ s.session_thread_ids)
        × (r.0 ≡ some scan → ids_of scan ≡ s.session_thread_ids)
  unfolding next_page
  next_page-ids none items keys s scan = ground arith
  next_page-ids (some cursor) nil keys s scan = ground arith
  next_page-ids (some cursor) (cons thread rest) keys s scan = ground arith

  read_page-distinct :
      (response : Value) (requested : String) (s : Scanner server.World)
      (scan : AppServerArchivePageScan)
      → distinct s.session_thread_ids ≡ true
      → let r = read_page server response requested s in
        (distinct r.1.session_thread_ids ≡ true) × (r.0 ≡ some scan → distinct (ids_of scan) ≡ true)
  unfolding read_page distinct contains
  read_page-distinct response requested s scan h =
      let matches = app_server_archive_thread_ids_from_response response requested in
      ground (
        arith,
        distinct-insert_all s.session_thread_ids matches.session_thread_ids h,
        next_page-ids (app_server_thread_list_next_cursor server.is_blank response)
            (items_or_none (app_server_thread_list_data response))
            (app_server_thread_identity_keys_from_response response)
            (record s {
              session_thread_ids = insert_all s.session_thread_ids matches.session_thread_ids;
            })
            scan,
      )

  read_answer-distinct :
      (answer : Result Value String) (requested : String) (s : Scanner server.World)
      (scan : AppServerArchivePageScan)
      → distinct s.session_thread_ids ≡ true
      → let r = read_answer server answer requested s in
        (distinct r.1.session_thread_ids ≡ true)
        × (r.0 ≡ ok (some scan) → distinct (ids_of scan) ≡ true)
  unfolding read_answer
  read_answer-distinct (err error) requested s scan h = ground arith
  read_answer-distinct (ok response) requested s scan h = ground (
    arith,
    read_page-distinct response requested (record s { next_request_id = s.next_request_id + 1 })
        scan h,
  )

  scan_page-distinct :
      (requested : String) (filter : Option Bool) (s : Scanner server.World)
      (scan : AppServerArchivePageScan)
      → distinct s.session_thread_ids ≡ true
      → (distinct (scan_page server requested filter s).1.session_thread_ids ≡ true)
        × ((scan_page server requested filter s).0 ≡ ok (some scan) → distinct (ids_of scan) ≡ true)
  unfolding scan_page
  scan_page-distinct requested filter s scan h =
      let looked = server.over_budget s.world in
      let listed = server.list_threads s.next_request_id s.cursor filter looked.1 in
      ground (arith, read_answer-distinct listed.0 requested (record s { world = listed.1 }) scan h)

  scan_pages-distinct :
      (left : ℕ) (requested : String) (filter : Option Bool) (s : Scanner server.World)
      (scan : AppServerArchivePageScan)
      → distinct s.session_thread_ids ≡ true
      → (scan_pages server left requested filter s).0 ≡ ok scan
      → distinct (ids_of scan) ≡ true
  unfolding scan_pages
  scan_pages-distinct zero requested filter s scan h done = ground arith
  scan_pages-distinct (suc left) requested filter s scan h done = ground (
    arith,
    scan_page-distinct requested filter s scan h,
    scan_pages-distinct left requested filter (scan_page server requested filter s).1 scan,
  )

  -- The thread ids that a scan gives, whole or cut by its page budget, are distinct.
  pub find-distinct :
      (thread_id : String) (filter : Option Bool) (next : ℕ) (world : server.World)
      (scan : AppServerArchivePageScan)
      → (find_app_server_thread_ids_in_pages server thread_id filter next world).0 ≡ ok scan
      → distinct (ids_of scan) ≡ true
  unfolding find_app_server_thread_ids_in_pages distinct
  find-distinct thread_id filter next world scan done =
      scan_pages-distinct app_server_archive_sync_max_pages_per_state thread_id filter _ scan refl
        done

  -- A scan uses up at most two request numbers.
  pub find-requests :
      (thread_id : String) (filter : Option Bool) (next : ℕ) (world : server.World)
      → (find_app_server_thread_ids_in_pages server thread_id filter next world).1.next_request_id
        ≤ next + 2
  unfolding find_app_server_thread_ids_in_pages
  find-requests thread_id filter next world =
      scan_pages-requests app_server_archive_sync_max_pages_per_state thread_id filter _
