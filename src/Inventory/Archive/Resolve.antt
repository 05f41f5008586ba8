-- ===== src/Inventory/Archive/Resolve.antt =====
-- What an archive request has to change: `resolve_app_server_thread_ids_for_archive` of
-- crates/agent/src/session_inventory.rs.
use chaop.Base.{
  ℕ, ◌+◌, ◌≤◌, ◌≡◌, ◌≢◌, refl, arith, String, Bool, true, false, not, ◌&&◌, Option, none, some,
  List, [], ◌∷◌, if◌then◌else◌, Result, ok, err,
}
use chaop.Inventory.Archive.{
  AppServer, Scanner, AppServerArchivePageScan, complete, exhausted,
  find_app_server_thread_ids_in_pages,
}
use chaop.Inventory.Archive.Pages.{distinct, ids_of, find-distinct, find-requests}

pub data AppServerArchiveResolution : Type 0 where
  needs_update : List String → AppServerArchiveResolution
  already_synced : AppServerArchiveResolution

abbrev pub Resolution : Type 0
Resolution = Result (Option AppServerArchiveResolution) String

abbrev scan_exhausted : AppServerArchivePageScan → Bool
scan_exhausted (complete scan) = false
scan_exhausted (exhausted ids) = true

-- The scan of the threads still in the other state: an answer, or none and the scan goes on.
unfoldable pub judge_source : AppServerArchivePageScan → Option Resolution
judge_source scan = go scan (ids_of scan)
  where
    go : AppServerArchivePageScan → List String → Option Resolution
    go (complete scan) (id ∷ ids) = some (ok (some (needs_update (id ∷ ids))))
    go (exhausted _) (id ∷ ids) =
        some (err "app-server archive sync exceeded page budget while resolving a session tree")
    go scan [] = none

-- The scan of the threads already in the state, where the first one found none.
unfoldable pub judge_target : Bool → AppServerArchivePageScan → Resolution
judge_target source_exhausted scan = go scan (ids_of scan)
  where
    go : AppServerArchivePageScan → List String → Resolution
    go (complete scan) (id ∷ ids) =
        if source_exhausted && not scan.matched_exact_thread
        then err "app-server archive sync exceeded page budget before resolving session tree state"
        else ok (some already_synced)
    go (exhausted _) (id ∷ ids) =
        if source_exhausted
        then err "app-server archive sync exceeded page budget before resolving session tree state"
        else ok (some already_synced)
    go (exhausted _) [] =
        err "app-server archive sync exceeded page budget before resolving thread state"
    go (complete scan) [] =
        if source_exhausted
        then err "app-server archive sync exceeded page budget before resolving thread state"
        else ok none

module _ (server : AppServer) where
  unfoldable pub judge_answer : Bool → Result AppServerArchivePageScan String → Resolution
  unfolding judge_target
  judge_answer source_exhausted (err error) = err error
  judge_answer source_exhausted (ok scan) = judge_target source_exhausted scan

  unfoldable pub after_source :
      String
      → Bool
      → Result AppServerArchivePageScan String
      → Scanner server.World
      → Resolution × Scanner server.World
  unfolding judge_source judge_answer
  after_source thread_id archived (err error) s = (err error, s)
  after_source thread_id archived (ok source) s = elim (judge_source source) [
    | some resolution ↦ (resolution, s)
    | none ↦
        let (target, t) =
          find_app_server_thread_ids_in_pages server thread_id (some archived) s.next_request_id
            s.world in
        (judge_answer (scan_exhausted source) target, t)
  ]

  unfoldable pub resolve_app_server_thread_ids_for_archive :
      String → Bool → ℕ → server.World → Resolution × Scanner server.World
  unfolding after_source
  resolve_app_server_thread_ids_for_archive thread_id archived next_request_id world =
      let (source, s) =
        find_app_server_thread_ids_in_pages server thread_id (some (not archived)) next_request_id
          world in
      after_source thread_id archived source s

  judge_source-update :
      (source : AppServerArchivePageScan) (ids : List String)
      → judge_source source ≡ some (ok (some (needs_update ids)))
      → (ids_of source ≡ ids) × (ids ≢ [])
  unfolding judge_source
  judge_source-update (complete scan) ids h = ground arith
  judge_source-update (exhausted found) ids h = ground arith

  judge_answer-update :
      (flag : Bool) (answer : Result AppServerArchivePageScan String) (ids : List String)
      → judge_answer flag answer ≢ ok (some (needs_update ids))
  unfolding judge_answer judge_target
  judge_answer-update flag (err error) ids h = ground arith
  judge_answer-update flag (ok (complete scan)) ids h = ground arith
  judge_answer-update flag (ok (exhausted found)) ids h = ground arith

  after_source-update :
      (thread_id : String) (archived : Bool) (source : Result AppServerArchivePageScan String)
      (s : Scanner server.World) (ids : List String)
      → (after_source thread_id archived source s).0 ≡ ok (some (needs_update ids))
      → (scan : AppServerArchivePageScan) × (source ≡ ok scan)
        × (judge_source scan ≡ some (ok (some (needs_update ids))))
  unfolding after_source
  after_source-update thread_id archived (err error) s ids h = absurd (ground arith)
  after_source-update thread_id archived (ok source) s ids h =
      let target =
        find_app_server_thread_ids_in_pages server thread_id (some archived) s.next_request_id
          s.world in
      (source, refl, ground (arith, judge_answer-update (scan_exhausted source) target.0 ids))

  after_source-requests :
      (thread_id : String) (archived : Bool) (source : Result AppServerArchivePageScan String)
      (s : Scanner server.World)
      → (after_source thread_id archived source s).1.next_request_id ≤ s.next_request_id + 2
  unfolding after_source
  after_source-requests thread_id archived (err error) s = ground arith
  after_source-requests thread_id archived (ok source) s =
      ground (arith, find-requests server thread_id (some archived) s.next_request_id s.world)

  -- The threads that an archive request is told to update are some, and distinct.
  pub resolve_updates :
      (thread_id : String) (archived : Bool) (next : ℕ) (world : server.World) (ids : List String)
      → (resolve_app_server_thread_ids_for_archive thread_id archived next world).0
        ≡ ok (some (needs_update ids))
      → (ids ≢ []) × (distinct ids ≡ true)
  unfolding resolve_app_server_thread_ids_for_archive
  resolve_updates thread_id archived next world ids done =
      let source =
        find_app_server_thread_ids_in_pages server thread_id (some (not archived)) next world in
      let (scan, given, judged) =
        after_source-update thread_id archived source.0 source.1 ids done in
      ground (
        arith,
        judge_source-update scan ids judged,
        find-distinct server thread_id (some (not archived)) next world scan given,
      )

  -- Resolving an archive request uses up at most four request numbers, also where it fails.
  resolve_requests :
      (thread_id : String) (archived : Bool) (next : ℕ) (world : server.World)
      → (resolve_app_server_thread_ids_for_archive thread_id archived next world).1.next_request_id
        ≤ next + 4
  unfolding resolve_app_server_thread_ids_for_archive
  resolve_requests thread_id archived next world =
      let source =
        find_app_server_thread_ids_in_pages server thread_id (some (not archived)) next world in
      omega (
        arith,
        after_source-requests thread_id archived source.0 source.1,
        find-requests server thread_id (some (not archived)) next world,
      )
