-- ===== src/Run/Postgres.antt =====
-- src/modules/knowledge/infrastructure/adapters/postgres_data_source_run_repository.py: the UPDATE
-- statements that count. A `CASE` sees the row as it was before the update.
pub mod Laws
pub mod Rows
use agentic_substrate.Prelude.{
  ℕ, ◌+◌, ◌==◌, if◌then◌else◌, Bool, ◌&&◌, Option, none, some, List, [], ◌∷◌, ◌++◌, leb, ltb,
}
use agentic_substrate.Run.Entity.{
  RunStatus, completed, partially_failed, failed, is_terminal, FailureItem, DataSourceRun,
}
use agentic_substrate.Run.Repository.{Progress, progress_of}
use agentic_substrate.Run.InMemory.{RunTable, store_at}

-- `INSERT … ON CONFLICT (id) DO UPDATE`: a row that is there keeps its data source, its knowledge
-- base and its start. The pending cursor has no column.
abbrev pub merge_row : Option DataSourceRun → DataSourceRun → DataSourceRun
merge_row none r = record r { pending_cursor = none }
merge_row (some old) r = record r {
  data_source_id = old.data_source_id;
  kb_id = old.kb_id;
  started_at = old.started_at;
  pending_cursor = none;
}

unfoldable pub save : RunTable → DataSourceRun → RunTable
unfolding store_at
save t r = store_at t r.id (merge_row (t r.id) r)

-- The condition of both `CASE` expressions: with this document all files are counted.
unfoldable pub counts_last : DataSourceRun → Bool
counts_last r =
    ltb 0 r.total_files_discovered
    && leb r.total_files_discovered (r.indexed_files_count + r.failed_files_count + 1)

unfoldable pub update_indexed : ℕ → DataSourceRun → DataSourceRun
unfolding counts_last
update_indexed now r = record r {
  indexed_files_count = r.indexed_files_count + 1;
  status =
      if counts_last r
      then if ltb 0 r.failed_files_count then partially_failed else completed
      else r.status;
  completed_at = if counts_last r then some now else r.completed_at;
}

unfoldable pub update_failed : ℕ → FailureItem → DataSourceRun → DataSourceRun
unfolding counts_last
update_failed now item r = record r {
  failed_files_count = r.failed_files_count + 1;
  failure_summary = r.failure_summary ++ item ∷ [];
  status =
      if counts_last r
      then if ltb 0 r.indexed_files_count then partially_failed else failed
      else r.status;
  completed_at = if counts_last r then some now else r.completed_at;
}

-- `WHERE id = $1 AND status NOT IN (…)`, and the row that `RETURNING` gives.
unfoldable pub update_where :
    (DataSourceRun → DataSourceRun)
    → RunTable
    → ℕ
    → Option DataSourceRun
    → Option Progress × RunTable
unfolding is_terminal progress_of store_at
update_where update t id none = (none, t)
update_where update t id (some r) =
    if is_terminal r.status
    then (none, t)
    else (some (progress_of (update r)), store_at t id (update r))

unfoldable pub count_indexed : ℕ → RunTable → ℕ → Option Progress × RunTable
unfolding update_where update_indexed
count_indexed now t id = update_where (update_indexed now) t id (t id)

unfoldable pub count_failed : ℕ → FailureItem → RunTable → ℕ → Option Progress × RunTable
unfolding update_where update_failed
count_failed now item t id = update_where (update_failed now item) t id (t id)
