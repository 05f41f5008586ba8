-- ===== src/Inventory/Archive/Matches.antt =====
-- The threads that a page offers for an archive request (crates/agent/src/session_inventory.rs).
use chaop.Base.{◌≡◌, arith, String, Bool, true, false, ◌&&◌, ◌||◌, Option, none, some}
use chaop.Json.{Items, nil, cons, get, as_str}
use chaop.Inventory.Archive.{
  AppServerArchivePageMatches, archive_matches, match_thread, contains, text_is,
}

-- Whether the list has a thread of this id that belongs to the session.
unfoldable pub has_thread : String → String → Items → Bool
has_thread id session nil = false
has_thread id session (cons thread rest) =
    (text_is (as_str (get "id" thread)) id && text_is (as_str (get "sessionId" thread)) session)
    || has_thread id session rest

match_thread-belongs :
    (thread_id session_id : Option String) (requested id : String)
    (later : AppServerArchivePageMatches)
    → contains id (match_thread thread_id session_id requested later).session_thread_ids ≡ true
    → ((text_is thread_id id && text_is session_id requested)
        || contains id later.session_thread_ids)
      ≡ true
unfolding match_thread contains
match_thread-belongs none session_id requested id later held = ground arith
match_thread-belongs (some thread_id) session_id requested id later held = ground arith

-- Every thread that a page gives for the tree of a session is a thread of the page that belongs to
-- the session.
pub matches_belong :
    (threads : Items) (requested id : String)
    → contains id (archive_matches threads requested).session_thread_ids ≡ true
    → has_thread id requested threads ≡ true
unfolding archive_matches has_thread contains
matches_belong nil requested id found = ground arith
matches_belong (cons thread rest) requested id found = ground (
  arith,
  match_thread-belongs (as_str (get "id" thread)) (as_str (get "sessionId" thread)) requested id
      (archive_matches rest requested) found,
  matches_belong rest requested id,
)
