-- ===== src/Inventory/Report/Laws.antt =====
-- What a report of the host's sessions promises.
use mathlib.Core.Path.{subst}
use chaop.Base.{
  ◌≡◌, refl, ◌∙◌, sym, ap, arith, Bool, true, false, ◌||◌, String, Option, some, List, [], ℕ, ltb,
  ◌≤◌, ok, Bool-cases, inl, inr, find_key, distinct_keys, take, if◌then◌else◌, length, take_all,
  unwrap_or, find_key-take, distinct_keys-take, is_sorted,
}
use chaop.Config.{SessionInventoryConfig}
use chaop.Inventory.Sessions.{
  SessionDraft, HistorySession, Readers, CodexHome, Read, and_read, read_session_index,
  read_history_sessions,
}
use chaop.Inventory.Rollouts.{read_rollouts}
use chaop.Inventory.Report.{
  AgentHostSession, AgentHostSessionsReport, AppServerSessionInventory, InventoryScope, full,
  comes_before, loaded, finish_report, disabled_report, build_host_sessions_report, enabled_report,
}
use chaop.Inventory.Report.Drafts.{Fresh, files-Fresh, and_read_cases}
use chaop.Inventory.Report.Presence.{
  host_id, listed, reported_present, host_flag, all_sessions, all_sessions-distinct,
  all_sessions-present,
}
use chaop.Inventory.Report.Order.{sessions_sorted, sessions_few}

abbrev report_of :
    ℕ → AppServerSessionInventory → Option Bool → List AgentHostSession → AgentHostSessionsReport
report_of n inventory inventory_ok sessions = record {
  sessions = take n sessions;
  inventory_scope =
      if inventory.truncated || ltb n (length sessions)
      then InventoryScope.incremental
      else InventoryScope.full;
  app_server_inventory_ok = inventory_ok;
}

-- What a report is finished from.
record Finished (n : ℕ) (answer : AppServerSessionInventory × Option Bool)
    (r : AgentHostSessionsReport) : Type 0 where
  told : List HistorySession
  drafts : List SessionDraft
  fresh : Fresh drafts
  finishes : report_of n answer.0 answer.1 (all_sessions answer.0.sessions told drafts) ≡ r

module _ (readers : Readers) (home : CodexHome) (load : String → Read AppServerSessionInventory)
    (config : SessionInventoryConfig) (r : AgentHostSessionsReport) where
  abbrev answer : AppServerSessionInventory × Option Bool
  answer = loaded config.app_server_url (load (unwrap_or config.app_server_url ""))

  finished :
      (drafts : List SessionDraft) (told : List HistorySession)
      → finish_report config.max_sessions answer.0 answer.1 told drafts ≡ r
      → report_of config.max_sessions answer.0 answer.1 (all_sessions answer.0.sessions told drafts)
        ≡ r
  unfolding finish_report
  finished drafts told h = h

  enabled_report-Finished :
      enabled_report readers home load config ≡ ok r → Finished config.max_sessions answer r
  unfolding enabled_report
  enabled_report-Finished h =
      let n = config.max_sessions in
      let (indexed, index_read, more) =
        and_read_cases (read_session_index readers home [] n)
          (λ indexed. and_read (read_rollouts readers home indexed n) (λ drafts.
            and_read (read_history_sessions readers home n)
              (λ told. ok (finish_report n answer.0 answer.1 told drafts))))
          r h in
      let (drafts, rollouts_read, last) =
        and_read_cases (read_rollouts readers home indexed n)
          (λ drafts.
            and_read (read_history_sessions readers home n)
              (λ told. ok (finish_report n answer.0 answer.1 told drafts)))
          r more in
      let (told, history_read, done) =
        and_read_cases (read_history_sessions readers home n)
          (λ told. ok (finish_report n answer.0 answer.1 told drafts)) r last in
      record {
        told = told;
        drafts = drafts;
        fresh = files-Fresh readers home n indexed drafts index_read rollouts_read;
        finishes = finished drafts told (cc (done));
      }

  build-Finished :
      config.enabled ≡ true
      → build_host_sessions_report readers home load config ≡ ok r
      → Finished config.max_sessions answer r
  unfolding build_host_sessions_report
  build-Finished on h = enabled_report-Finished (cc (on, h))

pub record Shape (n : ℕ) (r : AgentHostSessionsReport) : Type 0 where
  pub few : length r.sessions ≤ n
  pub sorted : is_sorted comes_before r.sessions ≡ true
  pub distinct : distinct_keys host_id r.sessions ≡ true

report_of-Shape :
    (n : ℕ) (inventory : AppServerSessionInventory) (inventory_ok : Option Bool)
    (told : List HistorySession) (drafts : List SessionDraft)
    → Fresh drafts
    → Shape n (report_of n inventory inventory_ok (all_sessions inventory.sessions told drafts))
report_of-Shape n inventory inventory_ok told drafts fresh = record {
  few = sessions_few n _;
  sorted = sessions_sorted n _;
  distinct =
      distinct_keys-take host_id n _ (all_sessions-distinct inventory.sessions told drafts fresh);
}

full_present :
    (n : ℕ) (inventory : AppServerSessionInventory) (inventory_ok : Option Bool)
    (told : List HistorySession) (drafts : List SessionDraft)
    → Fresh drafts
    → (report_of n inventory inventory_ok
        (all_sessions inventory.sessions told drafts)).inventory_scope
      ≡ full
    → (k : String)
    → (inventory.truncated ≡ false)
      × (reported_present k (take n (all_sessions inventory.sessions told drafts))
          ≡ listed k inventory.sessions)
full_present n inventory inventory_ok told drafts fresh h k =
    let sessions = all_sessions inventory.sessions told drafts in
    (
      ground (arith, h),
      ap (reported_present k) (take_all n sessions (ground (arith, h)))
          ∙ all_sessions-present inventory.sessions told drafts fresh k,
    )

marked :
    (n : ℕ) (inventory : AppServerSessionInventory) (told : List HistorySession)
    (drafts : List SessionDraft)
    → Fresh drafts
    → (k : String) (s : AgentHostSession)
    → find_key host_id k (take n (all_sessions inventory.sessions told drafts)) ≡ some s
    → s.app_server_present ≡ listed k inventory.sessions
marked n inventory told drafts fresh k s h =
    let sessions = all_sessions inventory.sessions told drafts in
    sym (ap host_flag (find_key-take host_id n k sessions s h))
    ∙ all_sessions-present inventory.sessions told drafts fresh k

disabled_report-Shape :
    (readers : Readers) (home : CodexHome) (load : String → Read AppServerSessionInventory)
    (config : SessionInventoryConfig) (r : AgentHostSessionsReport)
    → config.enabled ≡ false
    → build_host_sessions_report readers home load config ≡ ok r
    → Shape config.max_sessions r
unfolding build_host_sessions_report is_sorted distinct_keys
disabled_report-Shape readers home load config r off h =
    let made : disabled_report ≡ r = cc (off, h) in
    subst (Shape config.max_sessions) made
      (record { few = omega arith; sorted = refl; distinct = refl })

-- Whatever the files and the app-server tell, a report that is made has at most `max_sessions`
-- sessions, each later than or as late as those behind it and those of one time by their ids, and
-- no two of them of one id.
pub build-Shape :
    (readers : Readers) (home : CodexHome) (load : String → Read AppServerSessionInventory)
    (config : SessionInventoryConfig) (r : AgentHostSessionsReport)
    → build_host_sessions_report readers home load config ≡ ok r
    → Shape config.max_sessions r
build-Shape readers home load config r h = elim (Bool-cases config.enabled) [
  | inl on ↦
      let made = build-Finished readers home load config r on h in
      subst (Shape config.max_sessions) made.finishes
        (report_of-Shape config.max_sessions _ _ made.told made.drafts made.fresh)
  | inr off ↦ disabled_report-Shape readers home load config r off h
]

loaded_inventory :
    (config : SessionInventoryConfig) (load : String → Read AppServerSessionInventory)
    (url : String) (inventory : AppServerSessionInventory)
    → config.app_server_url ≡ some url
    → load url ≡ ok inventory
    → (loaded config.app_server_url (load (unwrap_or config.app_server_url ""))).0 ≡ inventory
loaded_inventory config load url inventory has_url answers = rw (has_url, answers)

-- When the app-server's inventory is loaded, a session of the report is marked as present in the
-- app-server exactly when that inventory lists its id, however many sessions were cut.
pub report_marks :
    (readers : Readers) (home : CodexHome) (load : String → Read AppServerSessionInventory)
    (config : SessionInventoryConfig) (r : AgentHostSessionsReport) (url : String)
    (inventory : AppServerSessionInventory) (k : String) (s : AgentHostSession)
    → config.enabled ≡ true
    → config.app_server_url ≡ some url
    → load url ≡ ok inventory
    → build_host_sessions_report readers home load config ≡ ok r
    → find_key host_id k r.sessions ≡ some s
    → s.app_server_present ≡ listed k inventory.sessions
report_marks readers home load config r url inventory k s on has_url answers h found =
    let made = build-Finished readers home load config r on h in
    let answer = loaded config.app_server_url (load (unwrap_or config.app_server_url "")) in
    marked config.max_sessions answer.0 made.told made.drafts made.fresh k s
      (ap (λ x. find_key host_id k x.sessions) made.finishes ∙ found)
    ∙ ap (λ x. listed k x.sessions) (loaded_inventory config load url inventory has_url answers)

-- When the app-server's inventory is loaded, a report that calls itself full rests on an inventory that
-- was not cut, and for every id it has a session marked as present in the app-server exactly when
-- that inventory lists the id.
pub full_report_complete :
    (readers : Readers) (home : CodexHome) (load : String → Read AppServerSessionInventory)
    (config : SessionInventoryConfig) (r : AgentHostSessionsReport) (url : String)
    (inventory : AppServerSessionInventory) (k : String)
    → config.enabled ≡ true
    → config.app_server_url ≡ some url
    → load url ≡ ok inventory
    → build_host_sessions_report readers home load config ≡ ok r
    → r.inventory_scope ≡ full
    → (inventory.truncated ≡ false) × (reported_present k r.sessions ≡ listed k inventory.sessions)
full_report_complete readers home load config r url inventory k on has_url answers h is_full =
    let made = build-Finished readers home load config r on h in
    let same = loaded_inventory config load url inventory has_url answers in
    let answer = loaded config.app_server_url (load (unwrap_or config.app_server_url "")) in
    let found =
      full_present config.max_sessions answer.0 answer.1 made.told made.drafts made.fresh
        (ap (λ x. x.inventory_scope) made.finishes ∙ is_full) k in
    (
      sym (ap (λ x. x.truncated) same) ∙ found.0,
      ap (λ x. reported_present k x.sessions) (sym made.finishes)
          ∙ found.1
          ∙ ap (λ x. listed k x.sessions) same,
    )
