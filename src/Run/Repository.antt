-- ===== src/Run/Repository.antt =====
-- The part of src/modules/knowledge/domain/interfaces/i_data_source_run_repository.py that counts
-- documents, as an interface with the laws that the projector relies on.
use agentic_substrate.Prelude.{ℕ, ◌<◌, ◌≡◌, ◌≢◌, true, false, Option, none, some, String}
use agentic_substrate.Run.Entity.{
  RunStatus, is_terminal, FailureItem, DataSourceRun, record_document_indexed,
  record_document_failed,
}

-- The tuple that counting returns.
pub record Progress : Type 0 where
  pub data_source_id : ℕ
  pub kb_id : ℕ
  pub indexed : ℕ
  pub failed : ℕ
  pub total : ℕ
  pub status : RunStatus

unfoldable pub progress_of : DataSourceRun → Progress
progress_of r = record {
  data_source_id = r.data_source_id;
  kb_id = r.kb_id;
  indexed = r.indexed_files_count;
  failed = r.failed_files_count;
  total = r.total_files_discovered;
  status = r.status;
}

-- What an operation on the run `id` promises: it counts a live run that has files by `count`,
-- leaves an ended or absent one alone, and never touches another run.
pub record Counts {T : Type 0} (find : T → ℕ → Option DataSourceRun)
    (op : T → ℕ → Option Progress × T) (count : DataSourceRun → DataSourceRun) : Type 0 where
  pub live :
      (t : T) (id : ℕ) (r : DataSourceRun)
      → find t id ≡ some r
      → is_terminal r.status ≡ false
      → 0 < r.total_files_discovered
      → ((op t id).0 ≡ some (progress_of (count r))) × (find (op t id).1 id ≡ some (count r))
  pub ended :
      (t : T) (id : ℕ) (r : DataSourceRun)
      → find t id ≡ some r
      → is_terminal r.status ≡ true
      → ((op t id).0 ≡ none) × (find (op t id).1 id ≡ some r)
  pub missing :
      (t : T) (id : ℕ) → find t id ≡ none → ((op t id).0 ≡ none) × (find (op t id).1 id ≡ none)
  pub others : (t : T) (id j : ℕ) → j ≢ id → find (op t id).1 j ≡ find t j

-- The failure item that the projector builds.
unfoldable pub basic_item : ℕ → String → String → FailureItem
basic_item doc file_name error = record {
  doc_id = some doc;
  file_name = file_name;
  error = error;
  external_id = none;
  mime_type = none;
  version_hash = none;
  size_bytes = none;
}

-- The times are those at which the operations run.
pub record RunRepository : Type 1 where
  pub Table : Type 0
  pub find : Table → ℕ → Option DataSourceRun
  pub count_indexed : ℕ → Table → ℕ → Option Progress × Table
  pub count_failed : ℕ → FailureItem → Table → ℕ → Option Progress × Table
  pub indexed_law : (now : ℕ) → Counts find (count_indexed now) (record_document_indexed now)
  pub failed_law :
      (now doc : ℕ) (file_name error : String)
      → Counts find
          (count_failed now (basic_item doc file_name error))
          (λ r. record_document_failed now r (basic_item doc file_name error))
