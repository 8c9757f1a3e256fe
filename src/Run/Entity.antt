-- ===== src/Run/Entity.antt =====
-- src/modules/knowledge/domain/entities/data_source_run.py
pub mod Counts
use agentic_substrate.Prelude.{
  ℕ, ◌+◌, Bool, true, false, not, Option, none, some, List, [], ◌∷◌, ◌++◌, String, leb, ltb, ◌==◌,
  if◌then◌else◌, length, str_eq,
}

pub data RunStatus : Type 0 where
  extracting ingesting completed partially_failed failed : RunStatus

-- `status in ("COMPLETED", "PARTIALLY_FAILED", "FAILED")`
unfoldable pub is_terminal : RunStatus → Bool
is_terminal extracting = false
is_terminal ingesting = false
is_terminal _ = true

pub record FailureItem : Type 0 where
  pub doc_id : Option ℕ
  pub file_name : String
  pub error : String
  pub external_id : Option String
  pub mime_type : Option String
  pub version_hash : Option String
  pub size_bytes : Option ℕ

-- The counts are natural numbers: the constructor cuts negative ones off at 0, and nothing
-- decreases them below it.
pub record DataSourceRun : Type 0 where
  pub id : ℕ
  pub data_source_id : ℕ
  pub kb_id : ℕ
  pub status : RunStatus
  pub total_files_discovered : ℕ
  pub indexed_files_count : ℕ
  pub failed_files_count : ℕ
  pub failure_summary : List FailureItem
  pub pending_cursor : Option String
  pub started_at : ℕ
  pub completed_at : Option ℕ

-- `DataSourceRun(data_source_id=…, kb_id=…, status=EXTRACTING)`: `id` is the value of `uuid4()`,
-- and `now` that of `datetime.now(UTC)`.
unfoldable pub new_run : (id data_source_id kb_id now : ℕ) → DataSourceRun
new_run id data_source_id kb_id now = record {
  id = id;
  data_source_id = data_source_id;
  kb_id = kb_id;
  status = extracting;
  total_files_discovered = 0;
  indexed_files_count = 0;
  failed_files_count = 0;
  failure_summary = [];
  pending_cursor = none;
  started_at = now;
  completed_at = none;
}

unfoldable pub mark_ingesting : ℕ → DataSourceRun → ℕ → DataSourceRun
mark_ingesting now r total_files =
    if total_files == 0
    then record r { total_files_discovered = 0; status = completed; completed_at = some now }
    else record r { total_files_discovered = total_files; status = ingesting }

unfoldable pub mark_retrying : DataSourceRun → DataSourceRun
mark_retrying r = record r { status = ingesting; completed_at = none }

-- The status of a run whose files are all accounted for.
unfoldable pub final_status : (indexed failed_count : ℕ) → RunStatus
final_status indexed failed_count =
    if failed_count == 0 then completed else if ltb 0 indexed then partially_failed else failed

unfoldable pub check_completion : ℕ → DataSourceRun → DataSourceRun
unfolding final_status
check_completion now r =
    if leb r.total_files_discovered (r.indexed_files_count + r.failed_files_count)
    then record r {
      status = final_status r.indexed_files_count r.failed_files_count;
      completed_at = some now;
    }
    else r

unfoldable pub record_document_indexed : ℕ → DataSourceRun → DataSourceRun
unfolding check_completion
record_document_indexed now r =
    check_completion now (record r { indexed_files_count = r.indexed_files_count + 1 })

unfoldable pub record_document_failed : ℕ → DataSourceRun → FailureItem → DataSourceRun
unfolding check_completion
record_document_failed now r item = check_completion now (record r {
  failed_files_count = r.failed_files_count + 1;
  failure_summary = r.failure_summary ++ item ∷ [];
})

-- The items whose `file_name` differs.
unfoldable pub other_failures : String → List FailureItem → List FailureItem
other_failures file_name [] = []
other_failures file_name (f ∷ items) =
    let rest = other_failures file_name items in
    if str_eq f.file_name file_name then rest else f ∷ rest

unfoldable pub resolve_item_success : ℕ → DataSourceRun → String → DataSourceRun
unfolding other_failures check_completion
resolve_item_success now r file_name =
    let remaining = other_failures file_name r.failure_summary in
    check_completion now (record r {
      failure_summary = remaining;
      failed_files_count = length remaining;
      indexed_files_count = r.indexed_files_count + 1;
    })
