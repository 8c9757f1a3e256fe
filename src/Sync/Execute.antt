-- ===== src/Sync/Execute.antt =====
-- sync_data_source_use_case.py, `execute`. The repositories have the value semantics of the
-- Postgres ones: what is saved is a copy, and a reload gives the stored copy.
use agentic_substrate.Prelude.{
  ℕ, Bool, false, ◌==◌, not, Option, none, some, List, [], ◌∷◌, String, Metadata, ltb, str_eq,
  if◌then◌else◌, foldl, map, length, any,
}
use agentic_substrate.Kernel.Result.{Result, ok, err, DomainError}
use agentic_substrate.Run.Entity.{
  RunStatus, FailureItem, DataSourceRun, new_run, mark_ingesting, record_document_indexed,
  record_document_failed,
}
use agentic_substrate.Run.InMemory.{RunTable}
use agentic_substrate.Run.Postgres.{save}
use agentic_substrate.DataSource.{
  DataSource, syncing, disabled, start_sync, complete_sync, fail_sync, set_pending_cursor,
}
use agentic_substrate.Sync.Item.{
  DiscoveredItem, Services, DocumentInfo, Context, ItemOutcome, unchanged, attached, not_attached,
  process_item,
}

-- `connector.fetch_changes`: the discovered items and the next cursor.
pub record Changes : Type 0 where
  pub items : List DiscoveredItem
  pub next_cursor : Option String

pub record SyncRequest : Type 0 where
  pub data_source_id : ℕ
  pub kb_id : Option ℕ

-- The stored data sources and runs.
pub record World : Type 0 where
  pub data_sources : ℕ → Option DataSource
  pub runs : RunTable

pub data SyncEvent : Type 0 where
  sync_started : (data_source_id run_id kb_id : ℕ) → SyncEvent
  sync_completed :
      (data_source_id run_id synced_files_count : ℕ) (new_cursor : Option String) → SyncEvent
  sync_failed : (data_source_id run_id : ℕ) (error_message : String) → SyncEvent

pub record SyncResponse : Type 0 where
  pub data_source_id : ℕ
  pub sync_run_id : ℕ
  pub total_items_discovered : ℕ
  pub status : RunStatus

-- What the use case finds outside: the connector's answer (an exception is its text), the services
-- for the items, the documents of the knowledge base, the order in which the items are finished,
-- what other tasks do to the stored runs until the reload, a fresh id, and the times.
pub record Environment : Type 0 where
  pub fetch : Metadata → Option String → Result Changes String
  pub services : Services
  pub documents : List DocumentInfo
  pub max_file_size_bytes : ℕ
  pub arrange : List DiscoveredItem → List DiscoveredItem
  pub meanwhile : RunTable → RunTable
  pub new_id : ℕ
  pub now : ℕ
  pub later : ℕ

abbrev pub error : String → String → DomainError
error message code = record { message = message; code = code }

unfoldable pub save_source : World → DataSource → World
save_source w d = record w { data_sources = λ j. if j == d.id then some d else w.data_sources j }

unfoldable pub save_run : World → DataSourceRun → World
unfolding save
save_run w r = record w { runs = save w.runs r }

unfoldable pub apply_outcome : ℕ → DataSourceRun → ItemOutcome → DataSourceRun
unfolding record_document_indexed record_document_failed
apply_outcome now r unchanged = record_document_indexed now r
apply_outcome now r (attached id) = r
apply_outcome now r (not_attached item) = record_document_failed now r item

-- `asyncio.gather` over the items, which change the run as they finish.
unfoldable pub process_all :
    Environment → Context → DataSourceRun → List DiscoveredItem → DataSourceRun
unfolding apply_outcome process_item
process_all env c r items =
    foldl (apply_outcome env.later) r (map (process_item env.services c) (env.arrange items))

-- A failure is carried over unless the reloaded run lists its file name already.
unfoldable pub carry_over : ℕ → DataSourceRun → FailureItem → DataSourceRun
unfolding record_document_failed
carry_over now latest fail =
    if any (λ f. str_eq f.file_name fail.file_name) latest.failure_summary
    then latest
    else record_document_failed now latest fail

unfoldable pub reconcile : ℕ → Option DataSourceRun → DataSourceRun → DataSourceRun
unfolding carry_over
reconcile now none r = r
reconcile now (some latest) r = foldl (carry_over now) latest r.failure_summary

-- The cursor moves on only if no file failed; else the next one is set aside.
unfoldable pub settle_cursor : ℕ → DataSource → DataSourceRun → Option String → DataSource
unfolding set_pending_cursor complete_sync
settle_cursor now d r next_cursor =
    if ltb 0 r.failed_files_count
    then complete_sync now (set_pending_cursor now d next_cursor) none
    else set_pending_cursor now (complete_sync now d next_cursor) none

abbrev pub SyncResult : Type 0
SyncResult = Result SyncResponse DomainError × World × List SyncEvent

abbrev pub context_of : Environment → DataSource → DataSourceRun → Context
context_of env d r = record {
  kb_id = d.kb_id;
  data_source_id = d.id;
  run_id = r.id;
  max_file_size_bytes = env.max_file_size_bytes;
  documents = env.documents;
}

-- From the answer of the connector to the end of the `try` block.
unfoldable pub synchronise : Environment → World → DataSource → DataSourceRun → Changes → SyncResult
unfolding mark_ingesting save_run save_source process_all reconcile settle_cursor
synchronise env w d r changes =
    let announced = mark_ingesting env.now r (length changes.items) in
    let w1 = save_run w announced in
    let processed = process_all env (context_of env d r) announced changes.items in
    let w2 = record w1 { runs = env.meanwhile w1.runs } in
    let final = reconcile env.later (w2.runs r.id) processed in
    let d' = settle_cursor env.later d final changes.next_cursor in
    (
      ok (record {
        data_source_id = d.id;
        sync_run_id = final.id;
        total_items_discovered = length changes.items;
        status = final.status;
      }),
      save_run (save_source w2 d') final,
      sync_completed d.id final.id (length changes.items) d'.cursor ∷ [],
    )

-- The `except` block.
unfoldable pub abandon : Environment → World → DataSource → DataSourceRun → String → SyncResult
unfolding fail_sync save_source
abandon env w d r message = (
  err (error message "DATA_SOURCE_SYNC_FAILED"),
  save_source w (fail_sync env.later d message),
  sync_failed d.id r.id message ∷ [],
)

abbrev pub answered :
    Environment → World → DataSource → DataSourceRun → Result Changes String → SyncResult
answered env w d r (ok changes) = synchronise env w d r changes
answered env w d r (err message) = abandon env w d r message

abbrev pub publish_first : SyncEvent → SyncResult → SyncResult
publish_first e (result, w, events) = (result, w, e ∷ events)

-- From the saving of the started data source on.
unfoldable pub run_sync : Environment → World → DataSource → SyncResult
unfolding new_run save_source save_run synchronise abandon
run_sync env w d =
    let r = new_run env.new_id d.id d.kb_id env.now in
    let w1 = save_run (save_source w d) r in
    publish_first (sync_started d.id r.id d.kb_id)
      (answered env w1 d r (env.fetch d.config d.cursor))

-- `request.kb_id is not None and data_source.kb_id != request.kb_id`
abbrev pub other_kb : Option ℕ → ℕ → Bool
other_kb none kb_id = false
other_kb (some k) kb_id = not (kb_id == k)

abbrev pub refuse : World → String → SyncResult
refuse w code = (err (error "" code), w, [])

abbrev pub begin_sync : Environment → World → Result DataSource String → SyncResult
begin_sync env w (ok d) = run_sync env w d
begin_sync env w (err message) = refuse w message

abbrev pub sync_found : Environment → World → SyncRequest → Option DataSource → SyncResult
sync_found env w request none = refuse w "DATA_SOURCE_NOT_FOUND"
sync_found env w request (some d) =
    if other_kb request.kb_id d.kb_id then refuse w "DATA_SOURCE_NOT_FOUND" else elim d.status [
      | disabled ↦ refuse w "DATA_SOURCE_DISABLED"
      | syncing ↦ refuse w "DATA_SOURCE_ALREADY_SYNCING"
      | _ ↦ begin_sync env w (start_sync env.now d)
    ]

unfoldable pub execute : Environment → World → SyncRequest → SyncResult
unfolding start_sync run_sync
execute env w request = sync_found env w request (w.data_sources request.data_source_id)
