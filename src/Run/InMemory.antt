-- ===== src/Run/InMemory.antt =====
-- src/modules/knowledge/infrastructure/adapters/in_memory_data_source_run_repository.py: a dict from
-- ids to runs, which are counted in place.
pub mod Laws
use agentic_substrate.Prelude.{
  ℕ, ◌==◌, if◌then◌else◌, ◌≡◌, ◌≢◌, false, true, Option, none, some, or_else, is_some, arith,
  ==_refl, ==_iff, refl,
}
use agentic_substrate.Run.Entity.{
  RunStatus, is_terminal, FailureItem, DataSourceRun, record_document_indexed,
  record_document_failed,
}
use agentic_substrate.Run.Repository.{Progress, progress_of, Counts, RunRepository}

abbrev pub RunTable : Type 0
RunTable = ℕ → Option DataSourceRun

abbrev pub find : RunTable → ℕ → Option DataSourceRun
find t id = t id

unfoldable pub save : RunTable → DataSourceRun → RunTable
save t r = λ j. if j == r.id then some r else t j

-- The run found under `id`, changed in place.
unfoldable pub store_at : RunTable → ℕ → DataSourceRun → RunTable
store_at t id r = λ j. if j == id then some r else t j

unfoldable pub count_run :
    (DataSourceRun → DataSourceRun)
    → RunTable
    → ℕ
    → Option DataSourceRun
    → Option Progress × RunTable
unfolding is_terminal progress_of store_at
count_run count t id none = (none, t)
count_run count t id (some r) =
    if is_terminal r.status
    then (none, t)
    else (some (progress_of (count r)), store_at t id (count r))

unfoldable pub count_indexed : ℕ → RunTable → ℕ → Option Progress × RunTable
unfolding count_run record_document_indexed
count_indexed now t id = count_run (record_document_indexed now) t id (t id)

-- Only three of the item's fields are read; a document id that is missing becomes that of the run.
unfoldable pub read_item : FailureItem → DataSourceRun → FailureItem
read_item item r = record {
  doc_id = or_else item.doc_id (some r.id);
  file_name = item.file_name;
  error = item.error;
  external_id = none;
  mime_type = none;
  version_hash = none;
  size_bytes = none;
}

unfoldable pub count_failed : ℕ → FailureItem → RunTable → ℕ → Option Progress × RunTable
unfolding count_run record_document_failed read_item
count_failed now item t id =
    count_run (λ r. record_document_failed now r (read_item item r)) t id (t id)
