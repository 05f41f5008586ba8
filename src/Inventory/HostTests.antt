-- ===== src/Inventory/HostTests.antt =====
-- The host's sessions, their backfill and the resolver of crates/agent/src/session_inventory.rs at
-- concrete inputs.
use chaop.Base.{
  ◌≡◌, refl, ℕ, ◌+◌, ◌≤◌, max, ltb, ◌||◌, ◌⊎◌, arith, Bool, true, false, String, ◌str++◌, none,
  some, is_some, List, [], ◌∷◌, map, length, ok, err, has_key, find_key, sort_by,
}
use chaop.Json.{Value, string, array, object, Items, nil, cons, end, field, get}
use chaop.Config.{SessionInventoryConfig, default_session_inventory}
use chaop.Inventory.Calendar.{civil_from_days}
use chaop.Inventory.Calendar.Civil.{IsDayOf, civil_from_days-IsDayOf}
use chaop.Inventory.Title.{is_blank}
use chaop.Inventory.Archive.{app_server_thread_list_data, app_server_thread_list_next_cursor}
use chaop.Inventory.Sessions.{Readers, CodexHome, AppServerSession, Read}
use chaop.Inventory.Report.{
  AgentHostSession, AgentHostSessionsReport, AppServerSessionInventory, full, TitleSource,
  build_host_sessions_report,
}
use chaop.Inventory.Report.Presence.{host_id, listed, reported_present}
use chaop.Inventory.Report.Laws.{Shape, build-Shape, report_marks, full_report_complete}
use chaop.Inventory.AppServer.{session_key, count_items, load_app_server_sessions_with_auth}
use chaop.Inventory.AppServer.Threads.{in_threads, all_identified, load_lists}
use chaop.Inventory.Resolver.{
  started, replace_timed_out_worker, reap_finished_workers, active_sender, Surroundings, accepted,
  timed_out, resolve,
}
use chaop.Inventory.Resolver.Recovery.{
  take_sender, replace, enter_all, Bounded, resolver-Bounded, replaced_once, resolve_recovers,
}
use chaop.Inventory.RecentLines.{lines, keep_last, recent_lines}
use chaop.Inventory.RecentLines.Equals.{recent_lines-exact}
use chaop.Inventory.Backfill.{HostSessionBackfill, rollout_events, read_rollout_backfill}
use chaop.Inventory.Backfill.Complete.{rollout_backfill_complete}

civil_from_days-IsDayOf_example : IsDayOf (19782 + 719163) (civil_from_days 19782)
civil_from_days-IsDayOf_example = civil_from_days-IsDayOf 19782

-- A tool call is the only record that these readers know, and every line of the index is an id.
abbrev tool_call : Value
tool_call = object (
    field "type" (string "response_item")
      (field "payload" (object (field "type" (string "function_call") end)) end))

abbrev readers : Readers
readers = record {
  serde = record {
    to_string = λ v. "";
    from_str = λ s. some tool_call;
    repeats_field = λ key s. false;
  };
  index_line = λ s. some (record { id = s; thread_name = some " Plan "; updated_at = none });
  history_line = λ s. none;
  number_floor = λ s. none;
}

abbrev home : CodexHome
home = record { session_index = some (λ n. ok ("a" ∷ [])); history = none; rollouts = none }

abbrev present_session : AppServerSession
present_session = record {
  session_id = "b";
  name = none;
  cwd = some "/home/me/chaop";
  updated_at = some "2024-02-29T12:34:56.000Z";
}

abbrev inventory : AppServerSessionInventory
inventory = record { sessions = present_session ∷ []; truncated = false }

abbrev load : String → Read AppServerSessionInventory
load url = ok inventory

abbrev url : String
url = "ws://127.0.0.1:4500"

abbrev config : SessionInventoryConfig
config = record default_session_inventory { app_server_url = some url }

abbrev session_b : AgentHostSession
session_b = record {
  session_id = "b";
  title = "chaop (b)";
  title_source = TitleSource.fallback;
  app_server_present = true;
  cwd = some "/home/me/chaop";
  updated_at = "2024-02-29T12:34:56.000Z";
}

abbrev session_a : AgentHostSession
session_a = record {
  session_id = "a";
  title = "Plan";
  title_source = TitleSource.metadata;
  app_server_present = false;
  cwd = none;
  updated_at = "1970-01-01T00:00:00.000Z";
}

abbrev report : AgentHostSessionsReport
report = record {
  sessions = session_b ∷ session_a ∷ [];
  inventory_scope = full;
  app_server_inventory_ok = some true;
}

report_made : build_host_sessions_report readers home load config ≡ ok report
unfolding build_host_sessions_report sort_by
report_made = refl

build-Shape_example : Shape 100 report
build-Shape_example = build-Shape readers home load config report report_made

a_found : find_key host_id "a" report.sessions ≡ some session_a
unfolding find_key
a_found = refl

report_marks_example : session_a.app_server_present ≡ listed "a" inventory.sessions
report_marks_example =
    report_marks readers home load config report url inventory "a" session_a refl refl refl
      report_made a_found

full_report_complete_example :
    (inventory.truncated ≡ false)
    × (reported_present "b" report.sessions ≡ listed "b" inventory.sessions)
full_report_complete_example =
    full_report_complete readers home load config report url inventory "b" refl refl refl
      report_made refl

-- A page of one thread, and no further one.
abbrev threads : Items
threads = cons (object (field "id" (string "t") end)) nil

abbrev thread_list : Value
thread_list = object (field "result" (object (field "data" (array threads) end)) end)

abbrev thread_inventory : AppServerSessionInventory
thread_inventory = record {
  sessions = record { session_id = "t"; name = none; cwd = none; updated_at = none } ∷ [];
  truncated = false;
}

threads_loaded :
    load_app_server_sessions_with_auth (λ s. none) (λ n. ok thread_list) 5 ≡ ok thread_inventory
unfolding load_app_server_sessions_with_auth
threads_loaded = refl

threads_there : app_server_thread_list_data thread_list ≡ some threads
unfolding app_server_thread_list_data get
threads_there = refl

load_lists_example :
    (all_identified threads ≡ true)
    × (has_key session_key "t" thread_inventory.sessions ≡ in_threads "t" threads)
    × (thread_inventory.truncated ≡ (
        ltb (max 5 1) (count_items threads)
        || is_some (app_server_thread_list_next_cursor is_blank thread_list)))
load_lists_example =
    load_lists (λ s. none) (λ n. ok thread_list) 5 thread_list threads thread_inventory "t" refl
      threads_there threads_loaded

-- No thread ends, and every spawn succeeds.
abbrev running : ℕ → Bool
running w = false

resolver-Bounded_example :
    Bounded (enter_all (take_sender running ∷ replace running (ok tt) 0 ∷ []) started)
resolver-Bounded_example = resolver-Bounded (take_sender running ∷ replace running (ok tt) 0 ∷ [])

first_replaced : (replace_timed_out_worker running (ok tt) 0 started).0 ≡ ok tt
unfolding replace_timed_out_worker
first_replaced = refl

replaced_once_example :
    replace_timed_out_worker running
      (err "no thread")
      0
      (replace_timed_out_worker running (ok tt) 0 started).1
    ≡ (ok tt, reap_finished_workers running (replace_timed_out_worker running (ok tt) 0 started).1)
replaced_once_example =
    replaced_once running running (ok tt) (err "no thread") 0 started refl refl (omega arith)
      first_replaced

abbrev around : Surroundings
around = record {
  finished_before = running;
  sent = accepted;
  received = timed_out;
  others = λ state. state;
  finished_after = running;
  spawned = ok tt;
}

nothing_reaped : reap_finished_workers running started ≡ started
unfolding reap_finished_workers
nothing_reaped = refl

room : length (reap_finished_workers running started).retired + 1 ≤ 2
unfolding reap_finished_workers
room = omega arith

resolve_recovers_example :
    ((resolve around "ws://app" started).0
      ≡ err ("timed out resolving app-server URL " str++ "ws://app"))
    × ((active_sender running (resolve around "ws://app" started).1).0 ≡ ok 1)
resolve_recovers_example =
    resolve_recovers around "ws://app" started started 0 running refl refl refl refl nothing_reaped
      refl refl (omega (arith, room)) refl

abbrev two_lines : List ℕ
two_lines = 97 ∷ 10 ∷ 98 ∷ []

recent_lines-exact_example : recent_lines 1 two_lines ≡ keep_last 1 (lines two_lines)
recent_lines-exact_example = recent_lines-exact 1 two_lines

abbrev decode : List ℕ → String
decode bytes = ""

abbrev backfill : HostSessionBackfill
backfill = record {
  events =
      record {
        kind = "command.output";
        priority = "P3";
        summary = "unknown time - Tool call: tool";
        idempotency_key = "rollout:b:unknown time:function_call:811c9dc5";
        created_at = "1970-01-01T00:00:00.000Z";
      }
      ∷ [];
  truncated = true;
}

backfill_made : read_rollout_backfill readers decode (ok two_lines) "b" 1 ≡ ok backfill
unfolding read_rollout_backfill
backfill_made = refl

rollout_backfill_complete_example :
    (length backfill.events ≤ 1)
    × ((backfill.truncated ≡ true)
        ⊎ (backfill.events ≡ rollout_events readers "b" (map decode (lines two_lines))))
rollout_backfill_complete_example =
    rollout_backfill_complete readers decode two_lines "b" 1 backfill backfill_made
