-- ===== src/Run/Postgres/Rows.antt =====
-- Reading a row back after `save`.
use agentic_substrate.Prelude.{◌≡◌, refl, Option, none, some, arith}
use agentic_substrate.Run.Entity.{DataSourceRun}
use agentic_substrate.Run.InMemory.{RunTable}
use agentic_substrate.Run.InMemory.Laws.{store_at_self}
use agentic_substrate.Run.Postgres.{save, merge_row}

pub save_self : (t : RunTable) (r : DataSourceRun) → save t r r.id ≡ some (merge_row (t r.id) r)
unfolding save
save_self t r = store_at_self t r.id (merge_row (t r.id) r)

-- What a saved row keeps of a run.
pub record SameProgress (r s : DataSourceRun) : Type 0 where
  pub status : r.status ≡ s.status
  pub total : r.total_files_discovered ≡ s.total_files_discovered
  pub indexed : r.indexed_files_count ≡ s.indexed_files_count
  pub failures : r.failure_summary ≡ s.failure_summary

pub merge_row-SameProgress :
    (o : Option DataSourceRun) (r : DataSourceRun) → SameProgress (merge_row o r) r
merge_row-SameProgress none r = ground arith
merge_row-SameProgress (some s) r = ground arith

pub merge_row_id : (o : Option DataSourceRun) (r : DataSourceRun) → (merge_row o r).id ≡ r.id
merge_row_id none r = refl
merge_row_id (some s) r = refl
