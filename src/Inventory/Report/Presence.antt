-- ===== src/Inventory/Report/Presence.antt =====
-- Which sessions of a report are marked as present in the app-server.
use chaop.Base.{
  ◌≡◌, refl, ◌∙◌, ap, arith, Bool, true, false, ◌||◌, String, str_eq, Option, none, some, List, [],
  ◌∷◌, has_key, find_key, distinct_keys, sort_by, distinct_keys-sort_by, find_key-sort_by,
}
use chaop.Inventory.Sessions.{SessionDraft, HistorySession, AppServerSession, update_draft}
use chaop.Inventory.Report.{
  AgentHostSession, resolve_session, resolve_sessions, with_app_session, with_history,
  add_app_sessions, add_history_sessions, comes_before,
}
use chaop.Inventory.Report.Drafts.{
  draft_id, is_present, Fresh, distinct-update_draft, is_present_unchanged, is_present_set,
}

abbrev pub app_id : AppServerSession → String
app_id s = s.session_id

abbrev pub host_id : AgentHostSession → String
host_id s = s.session_id

-- whether the app-server lists the session
abbrev pub listed : String → List AppServerSession → Bool
listed k inventory = has_key app_id k inventory

abbrev pub host_flag : Option AgentHostSession → Bool
host_flag none = false
host_flag (some s) = s.app_server_present

-- whether the sessions have this one, marked as present
abbrev pub reported_present : String → List AgentHostSession → Bool
reported_present k sessions = host_flag (find_key host_id k sessions)

add_app_sessions-distinct :
    (inventory : List AppServerSession) (ds : List SessionDraft)
    → distinct_keys draft_id ds ≡ true
    → distinct_keys draft_id (add_app_sessions inventory ds) ≡ true
unfolding add_app_sessions
add_app_sessions-distinct [] ds h = h
add_app_sessions-distinct (s ∷ rest) ds h =
    add_app_sessions-distinct rest _
      (distinct-update_draft s.session_id (with_app_session s) (λ d. refl) ds h)

add_app_sessions-is_present :
    (inventory : List AppServerSession) (k : String) (ds : List SessionDraft)
    → is_present k (add_app_sessions inventory ds) ≡ (listed k inventory || is_present k ds)
unfolding add_app_sessions has_key
add_app_sessions-is_present [] k ds = refl
add_app_sessions-is_present (s ∷ rest) k ds =
    let ds' = update_draft s.session_id (with_app_session s) ds in
    ground (
      arith,
      add_app_sessions-is_present rest k ds',
      is_present_set s.session_id (with_app_session s) (λ d. refl) (λ d. refl) k ds,
    )

add_history_sessions-distinct :
    (told : List HistorySession) (ds : List SessionDraft)
    → distinct_keys draft_id ds ≡ true
    → distinct_keys draft_id (add_history_sessions told ds) ≡ true
unfolding add_history_sessions
add_history_sessions-distinct [] ds h = h
add_history_sessions-distinct (s ∷ rest) ds h =
    add_history_sessions-distinct rest _
      (distinct-update_draft s.session_id (with_history s) (λ d. refl) ds h)

add_history_sessions-is_present :
    (told : List HistorySession) (k : String) (ds : List SessionDraft)
    → is_present k (add_history_sessions told ds) ≡ is_present k ds
unfolding add_history_sessions
add_history_sessions-is_present [] k ds = refl
add_history_sessions-is_present (s ∷ rest) k ds =
    add_history_sessions-is_present rest k _
    ∙ is_present_unchanged s.session_id (with_history s) (λ d. refl) (λ d. refl) k ds

module _ (inventory : List AppServerSession) (told : List HistorySession) where
  resolve_sessions-has_key :
      (k : String) (ds : List SessionDraft)
      → has_key host_id k (resolve_sessions inventory told ds) ≡ has_key draft_id k ds
  unfolding resolve_sessions resolve_session has_key
  resolve_sessions-has_key k [] = refl
  resolve_sessions-has_key k (d ∷ ds) =
      ap (λ b. str_eq d.session_id k || b) (resolve_sessions-has_key k ds)

  resolve_sessions-distinct :
      (ds : List SessionDraft)
      → distinct_keys draft_id ds ≡ true
      → distinct_keys host_id (resolve_sessions inventory told ds) ≡ true
  unfolding resolve_sessions resolve_session distinct_keys
  resolve_sessions-distinct [] h = refl
  resolve_sessions-distinct (d ∷ ds) h =
      ground (arith, resolve_sessions-distinct ds, resolve_sessions-has_key d.session_id ds)

  resolve_sessions-present :
      (k : String) (ds : List SessionDraft)
      → reported_present k (resolve_sessions inventory told ds) ≡ is_present k ds
  unfolding resolve_sessions resolve_session find_key
  resolve_sessions-present k [] = refl
  resolve_sessions-present k (d ∷ ds) = ground (arith, resolve_sessions-present k ds)

-- The sessions of a report before they are cut.
abbrev pub all_sessions :
    List AppServerSession → List HistorySession → List SessionDraft → List AgentHostSession
all_sessions inventory told ds =
    sort_by comes_before
      (resolve_sessions inventory told (add_history_sessions told (add_app_sessions inventory ds)))

module _ (inventory : List AppServerSession) (told : List HistorySession) (ds : List SessionDraft)
    (fresh : Fresh ds) where
  joined : List SessionDraft
  joined = add_history_sessions told (add_app_sessions inventory ds)

  joined-distinct : distinct_keys draft_id joined ≡ true
  unfolding joined
  joined-distinct =
      add_history_sessions-distinct told _ (add_app_sessions-distinct inventory ds fresh.distinct)

  joined-is_present : (k : String) → is_present k joined ≡ listed k inventory
  unfolding joined
  joined-is_present k = ground (
    arith,
    add_history_sessions-is_present told k (add_app_sessions inventory ds),
    add_app_sessions-is_present inventory k ds,
    fresh.absent k,
  )

  pub all_sessions-distinct : distinct_keys host_id (all_sessions inventory told ds) ≡ true
  unfolding joined
  all_sessions-distinct =
      distinct_keys-sort_by host_id comes_before (resolve_sessions inventory told joined)
        (resolve_sessions-distinct inventory told joined joined-distinct)

  pub all_sessions-present :
      (k : String) → reported_present k (all_sessions inventory told ds) ≡ listed k inventory
  unfolding joined
  all_sessions-present k =
      ap host_flag (
        find_key-sort_by host_id comes_before k (resolve_sessions inventory told joined)
          (resolve_sessions-distinct inventory told joined joined-distinct))
      ∙ resolve_sessions-present inventory told k joined
      ∙ joined-is_present k
