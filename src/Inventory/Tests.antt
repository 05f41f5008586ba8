-- ===== src/Inventory/Tests.antt =====
-- The interaction answers and the archive scans of crates/agent/src/session_inventory.rs at concrete
-- inputs.
use chaop.Base.{ℕ, ◌+◌, ◌≡◌, refl, String, str_eq, true, false, some, [], ◌∷◌, ok}
use chaop.Json.{
  Value, null, bool, string, array, object, Items, nil, cons, end, field, get, find_field,
  insert_field,
}
use chaop.Inventory.Interaction.{
  app_server_turn_interaction_result, permissions_answer, approval_decision_is,
  granted_permissions_from_request, is_null,
}
use chaop.Inventory.Interaction.Grants.{grants_requested}
use chaop.Inventory.Archive.{
  AppServer, archive_matches, app_server_archive_thread_ids_from_response,
  app_server_thread_list_data, app_server_thread_identity_keys_from_response,
  app_server_thread_list_next_cursor, find_app_server_thread_ids_in_pages, scan_pages, scan_page,
  read_answer, read_page, next_page, insert_all, match_thread, contains,
}
use chaop.Inventory.Archive.Matches.{has_thread, matches_belong}
use chaop.Inventory.Archive.Pages.{distinct}
use chaop.Inventory.Archive.Resolve.{
  resolve_app_server_thread_ids_for_archive, after_source, judge_source, resolve_updates,
}

abbrev as_is : String → String
as_is s = s

-- A request for the network, of which the file system part is null.
abbrev params : Value
params =
    object
      (field "permissions" (object (field "network" (bool true) (field "fileSystem" null end))) end)

abbrev granted : Value
granted = object (field "network" (bool true) end)

abbrev answer : Value
answer = object (field "permissions" granted (field "scope" (string "turn") end))

grants_requested_example :
    (requested : Value) × (get "permissions" params ≡ some requested)
    × (get "network" requested ≡ some (bool true))
    × (is_null (bool true) ≡ false)
    × (get "network" granted ≡ some (bool true))
unfolding app_server_turn_interaction_result permissions_answer approval_decision_is
    granted_permissions_from_request get find_field insert_field is_null
grants_requested_example =
    let g =
      grants_requested as_is params (string "accept") answer granted (bool true) "network" refl refl
        refl in
    (g.0, g.1, g.2, g.3, refl)

abbrev thread : String → String → Value
thread id session = object (field "id" (string id) (field "sessionId" (string session) end))

abbrev threads : Items
threads = cons (thread "t1" "s") (cons (thread "t2" "other") (cons (thread "t3" "s") nil))

matches_belong_example : has_thread "t3" "s" threads ≡ true
unfolding archive_matches match_thread get find_field contains
matches_belong_example = matches_belong threads "s" "t3" refl

-- One page and no cursor.
abbrev server : AppServer
server = record {
  World = ℕ;
  is_blank = λ s. str_eq s "";
  over_budget = λ w. (false, w);
  list_threads = λ id cursor filter w.
      (ok (object (field "result" (object (field "data" (array threads) end)) end)), w + 1);
}

resolve_updates_example : distinct ("t1" ∷ "t3" ∷ []) ≡ true
unfolding resolve_app_server_thread_ids_for_archive after_source judge_source
    find_app_server_thread_ids_in_pages scan_pages scan_page read_answer read_page next_page
    app_server_archive_thread_ids_from_response app_server_thread_list_data
    app_server_thread_identity_keys_from_response app_server_thread_list_next_cursor archive_matches
    match_thread insert_all contains get find_field
resolve_updates_example = (resolve_updates server "s" true 7 0 ("t1" ∷ "t3" ∷ []) refl).1
