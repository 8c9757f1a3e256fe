-- ===== src/Retry.antt =====
-- src/modules/knowledge/application/use_cases/retry_failed_data_source_items: the retry of the
-- failures of a run. The repositories have the value semantics of the Postgres ones.
pub mod Outcomes
pub mod Cursor
pub mod Limits
use agentic_substrate.Prelude.{
  ℕ, ◌+◌, ◌==◌, not, Option, none, some, List, [], ◌∷◌, String, str_eq, if◌then◌else◌,
}
use agentic_substrate.Kernel.Result.{Result, ok, err, DomainError}
use agentic_substrate.Run.Entity.{
  RunStatus, FailureItem, DataSourceRun, mark_retrying, resolve_item_success,
}
use agentic_substrate.Run.InMemory.{RunTable}
use agentic_substrate.DataSource.{
  DataSource, DataSourceStatus, syncing, start_sync, complete_sync, fail_sync,
  promote_pending_cursor,
}
use agentic_substrate.Sync.Item.{Downloaded, AttachRequest, AttachReply, returned, raised}
use agentic_substrate.Sync.Execute.{World, save_source, save_run, error}

-- The parameters. `connect` is the error of `get_connector`, if it raises one. The other calls are
-- given the position of the failure in the summary and their arguments.
pub record RetryServices : Type 0 where
  pub connect : Option String
  pub download : ℕ → String → Option String → Result Downloaded String
  pub attach : ℕ → AttachRequest → AttachReply
  pub reprocess : (position kb_id document_id : ℕ) → AttachReply

pub record RetryRequest : Type 0 where
  pub kb_id : ℕ
  pub data_source_id : ℕ
  pub run_id : ℕ

pub record RetryResponse : Type 0 where
  pub data_source_id : ℕ
  pub run_id : ℕ
  pub reprocessed_count : ℕ
  pub remaining_failed_count : ℕ
  pub status : RunStatus

-- `meanwhile` is what other tasks do to the stored runs between the two times that this one saves.
pub record RetryEnvironment : Type 0 where
  pub services : RetryServices
  pub meanwhile : RunTable → RunTable
  pub now : ℕ
  pub later : ℕ

-- What becomes of a failure: it is resolved, it stays in the summary, or the whole retry ends.
pub data RetryOutcome : Type 0 where
  resolved kept : RetryOutcome
  crashed : String → RetryOutcome

-- An exception of the attachment is caught, one of the reprocessing is not.
unfoldable pub outcome_of_attach : AttachReply → RetryOutcome
outcome_of_attach (returned (ok id)) = resolved
outcome_of_attach (returned (err e)) = kept
outcome_of_attach (raised message) = kept

unfoldable pub outcome_of_reprocess : AttachReply → RetryOutcome
outcome_of_reprocess (returned (ok id)) = resolved
outcome_of_reprocess (returned (err e)) = kept
outcome_of_reprocess (raised message) = crashed message

-- The ids of the data source and of the run are those of the request, under which they were found.
-- The attachment leaves out `replaces_doc_id`, and it cannot be built without a content.
abbrev attach_again :
    RetryServices
    → RetryRequest
    → ℕ
    → FailureItem
    → String
    → Downloaded
    → Option (List ℕ)
    → RetryOutcome
attach_again sv request position f external_id d none = kept
attach_again sv request position f external_id d (some content) = outcome_of_attach (
    sv.attach position (record {
      kb_id = request.kb_id;
      file_name = f.file_name;
      content_type = d.mime_type;
      content = content;
      data_source_id = request.data_source_id;
      sync_run_id = request.run_id;
      external_id = external_id;
      version_hash = d.version_hash;
      replaces_doc_id = none;
    }))

abbrev attach_download :
    RetryServices
    → RetryRequest
    → ℕ
    → FailureItem
    → String
    → Result Downloaded String
    → RetryOutcome
attach_download sv request position f external_id (ok d) =
    attach_again sv request position f external_id d d.content
attach_download sv request position f external_id (err e) = kept

abbrev fetch_again : RetryServices → RetryRequest → ℕ → FailureItem → Option String → RetryOutcome
fetch_again sv request position f none = kept
fetch_again sv request position f (some external_id) =
    if str_eq external_id ""
    then kept
    else attach_download sv request position f external_id
        (sv.download position external_id f.mime_type)

abbrev retry_by : RetryServices → RetryRequest → ℕ → FailureItem → Option ℕ → RetryOutcome
retry_by sv request position f (some doc_id) =
    outcome_of_reprocess (sv.reprocess position request.kb_id doc_id)
retry_by sv request position f none = fetch_again sv request position f f.external_id

-- One turn of the loop: by the document if there is one, else from the connector.
unfoldable pub retry_item : RetryServices → RetryRequest → ℕ → FailureItem → RetryOutcome
unfolding outcome_of_attach outcome_of_reprocess
retry_item sv request position f = retry_by sv request position f f.doc_id

-- The loop over a copy of the summary, from a position on, with `reprocessed_count`.
unfoldable pub retry_items :
    RetryEnvironment
    → RetryRequest
    → ℕ
    → List FailureItem
    → DataSourceRun
    → ℕ
    → Result (DataSourceRun × ℕ) String
unfolding retry_item resolve_item_success
retry_items env request position [] r count = ok (r, count)
retry_items env request position (f ∷ items) r count =
    elim (retry_item env.services request position f) [
      | resolved ↦
          retry_items env request (position + 1) items
            (resolve_item_success env.later r f.file_name) (count + 1)
      | kept ↦ retry_items env request (position + 1) items r count
      | crashed message ↦ err message
    ]

abbrev pub RetryResult : Type 0
RetryResult = Result RetryResponse DomainError × World

abbrev pub response : DataSource → DataSourceRun → ℕ → RetryResponse
response d r count = record {
  data_source_id = d.id;
  run_id = r.id;
  reprocessed_count = count;
  remaining_failed_count = r.failed_files_count;
  status = r.status;
}

-- After the loop: with no failure left the pending cursor is promoted.
unfoldable pub settle_retry : ℕ → DataSource → DataSourceRun → DataSource
unfolding promote_pending_cursor complete_sync
settle_retry now d r =
    complete_sync now (if r.failed_files_count == 0 then promote_pending_cursor now d else d) none

abbrev pub conclude :
    RetryEnvironment → World → DataSource → Result (DataSourceRun × ℕ) String → RetryResult
conclude env w d (ok (r, count)) =
    (ok (response d r count), save_run (save_source w (settle_retry env.later d r)) r)
conclude env w d (err message) =
    (err (error message "INTERNAL_ERROR"), save_source w (fail_sync env.later d message))

abbrev pub retry_with :
    RetryEnvironment
    → RetryRequest
    → World
    → DataSource
    → DataSourceRun
    → Option String
    → RetryResult
retry_with env request w d r none =
    conclude env w d (retry_items env request 0 r.failure_summary r 0)
retry_with env request w d r (some message) = conclude env w d (err message)

-- From `start_sync` on.
unfoldable pub retry_run :
    RetryEnvironment → RetryRequest → World → DataSource → DataSourceRun → RetryResult
unfolding mark_retrying save_source save_run retry_items settle_retry fail_sync
retry_run env request w d r =
    let retrying = mark_retrying r in
    let saved = save_run (save_source w d) retrying in
    retry_with env request (record saved { runs = env.meanwhile saved.runs }) d retrying
      env.services.connect

abbrev pub refuse : World → String → RetryResult
refuse w code = (err (error "" code), w)

abbrev begin_retry :
    RetryEnvironment → RetryRequest → World → DataSourceRun → Result DataSource String → RetryResult
begin_retry env request w r (ok d) = retry_run env request w d r
begin_retry env request w r (err message) = refuse w message

abbrev retry_failures :
    RetryEnvironment
    → RetryRequest
    → World
    → DataSource
    → DataSourceRun
    → List FailureItem
    → RetryResult
retry_failures env request w d r [] =
    (ok (record (response d r 0) { remaining_failed_count = 0 }), w)
retry_failures env request w d r (f ∷ items) = begin_retry env request w r (start_sync env.now d)

abbrev retry_of_run :
    RetryEnvironment → RetryRequest → World → DataSource → Option DataSourceRun → RetryResult
retry_of_run env request w d none = refuse w "NOT_FOUND"
retry_of_run env request w d (some r) =
    if not (r.data_source_id == d.id)
    then refuse w "NOT_FOUND"
    else retry_failures env request w d r r.failure_summary

abbrev retry_of_source : RetryEnvironment → RetryRequest → World → Option DataSource → RetryResult
retry_of_source env request w none = refuse w "NOT_FOUND"
retry_of_source env request w (some d) =
    if not (d.kb_id == request.kb_id) then refuse w "NOT_FOUND" else elim d.status [
      | syncing ↦ refuse w "CONCURRENCY_CONFLICT"
      | _ ↦ retry_of_run env request w d (w.runs request.run_id)
    ]

-- The error texts are left out of the refusals.
unfoldable pub retry_failed_items : RetryEnvironment → World → RetryRequest → RetryResult
unfolding start_sync retry_run
retry_failed_items env w request =
    retry_of_source env request w (w.data_sources request.data_source_id)
