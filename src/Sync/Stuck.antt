-- ===== src/Sync/Stuck.antt =====
-- The run that a synchronisation leaves when every file is unchanged, and when the connector fails.
use agentic_substrate.Prelude.{
  ℕ, ◌≡◌, ◌≢◌, refl, ◌∙◌, ap, sym, Option, none, some, List, [], ◌∷◌, String, length, arith,
  ==_refl, All,
}
use agentic_substrate.Kernel.Result.{ok, err}
use agentic_substrate.Run.Entity.{
  DataSourceRun, RunStatus, extracting, ingesting, new_run, mark_ingesting,
}
use agentic_substrate.Run.InMemory.{RunTable}
use agentic_substrate.Run.Postgres.{save, merge_row}
use agentic_substrate.Run.Postgres.Rows.{save_self, merge_row-SameProgress, merge_row_id}
use agentic_substrate.DataSource.{DataSource, failed, fail_sync}
use agentic_substrate.Sync.Item.{ItemOutcome, unchanged}
use agentic_substrate.Sync.Execute.{
  Environment, World, SyncRequest, SyncResult, Changes, execute, run_sync, synchronise, abandon,
  save_source, save_run, reconcile, error,
}
use agentic_substrate.Sync.Accounting.{failures, length-zero}
use agentic_substrate.Sync.Cursor.{
  Accepts, started, first_run, outcomes, opened, reloaded, processed, final_run, processed-failures,
  execute-accepted, source_after,
}

abbrev pub run_after : SyncResult → ℕ → Option DataSourceRun
run_after (result, w, events) id = w.runs id

abbrev pub status_of : SyncResult → Option RunStatus
status_of (ok response, w, events) = some response.status
status_of (err e, w, events) = none

no_failures : (os : List ItemOutcome) → All (λ o. o ≡ unchanged) os → failures os ≡ 0
unfolding failures
no_failures [] h = refl
no_failures (o ∷ os) h = rw h.0 (omega (arith, no_failures os h.1))

mark_ingesting-live :
    (env : Environment) (d : DataSource) (total : ℕ)
    → total ≢ 0
    → ((mark_ingesting env.now (first_run env d) total).status ≡ ingesting)
      × ((mark_ingesting env.now (first_run env d) total).total_files_discovered ≡ total)
      × ((mark_ingesting env.now (first_run env d) total).indexed_files_count ≡ 0)
      × ((mark_ingesting env.now (first_run env d) total).id ≡ env.new_id)
unfolding mark_ingesting new_run
mark_ingesting-live env d total h = ground arith

module _ (env : Environment) (w : World) (request : SyncRequest) (d : DataSource)
    (changes : Changes) (accepted : Accepts w request d)
    (fetched : env.fetch d.config d.cursor ≡ ok changes) where
  abbrev announced : DataSourceRun
  announced = mark_ingesting env.now (first_run env d) (length changes.items)

  abbrev final : DataSourceRun
  final = final_run env (opened env w d) (started env d) (first_run env d) changes

  execute-final :
      (run_after (execute env w request) final.id
        ≡ some (
            merge_row
              (reloaded env (opened env w d) (started env d) (first_run env d) changes final.id)
              final))
      × (status_of (execute env w request) ≡ some final.status)
  unfolding run_sync synchronise save_run save_source
  execute-final =
      rw (execute-accepted env w request d accepted, fetched)
        (
          save_self (reloaded env (opened env w d) (started env d) (first_run env d) changes) final,
          refl,
        )

  abbrev row : DataSourceRun
  row = merge_row ((opened env w d).runs announced.id) announced

  -- With nothing else at work, the reload gives the row that was saved when the files were announced.
  final-eq-row :
      ((t : RunTable) → env.meanwhile t ≡ t)
      → All (λ o. o ≡ unchanged) (outcomes env d changes)
      → length changes.items ≢ 0
      → final ≡ row
  unfolding reconcile new_run
  final-eq-row alone same some_items =
      let counts = processed-failures env d changes in
      let none_listed =
        length-zero (processed env (started env d) (first_run env d) changes).failure_summary
          (sym counts.0 ∙ counts.1 ∙ no_failures _ same) in
      let id_eq : announced.id ≡ env.new_id =
        (mark_ingesting-live env d (length changes.items) some_items).3 in
      let found : reloaded env (opened env w d) (started env d) (first_run env d) changes env.new_id
          ≡ some row =
        rw (alone (save (opened env w d).runs announced)) (
          ap (save (opened env w d).runs announced) (sym id_eq)
          ∙ save_self (opened env w d).runs announced) in
      rw (found, none_listed)

  -- A synchronisation that is accepted and whose connector answers with at least one file, in
  -- which every file is unchanged and no other task is at work on the runs, ends with the status
  -- `ingesting` in its answer and in its stored run, which counts none of the files as indexed.
  pub unchanged_files_uncounted :
      ((t : RunTable) → env.meanwhile t ≡ t)
      → All (λ o. o ≡ unchanged) (outcomes env d changes)
      → length changes.items ≢ 0
      → (r : DataSourceRun) × (run_after (execute env w request) r.id ≡ some r)
        × (status_of (execute env w request) ≡ some ingesting)
        × (r.status ≡ ingesting)
        × (r.indexed_files_count ≡ 0)
        × (r.total_files_discovered ≡ length changes.items)
  unchanged_files_uncounted alone same some_items =
      let (live, total, none_indexed, id) =
        mark_ingesting-live env d (length changes.items) some_items in
      let stored =
        merge_row (reloaded env (opened env w d) (started env d) (first_run env d) changes final.id)
          final in
      let kept =
        merge_row-SameProgress
          (reloaded env (opened env w d) (started env d) (first_run env d) changes final.id)
          final in
      let as_row = final-eq-row alone same some_items in
      let first = merge_row-SameProgress ((opened env w d).runs announced.id) announced in
      let status_eq : final.status ≡ ingesting =
        ap (λ (r : DataSourceRun). r.status) as_row ∙ first.status ∙ live in
      (
        stored,
        ap (run_after (execute env w request)) (merge_row_id _ final) ∙ execute-final.0,
        execute-final.1 ∙ ap some status_eq,
        kept.status ∙ status_eq,
        kept.indexed
            ∙ ap (λ (r : DataSourceRun). r.indexed_files_count) as_row
            ∙ first.indexed
            ∙ none_indexed,
        kept.total
            ∙ ap (λ (r : DataSourceRun). r.total_files_discovered) as_row
            ∙ first.total
            ∙ total,
      )

-- When the connector fails in a synchronisation that is accepted, the request fails with its
-- error, the data source keeps its cursor and is marked as failed with that error, and the run of
-- the attempt is stored as `extracting`.
pub failed_fetch_leaves_run :
    (env : Environment) (w : World) (request : SyncRequest) (d : DataSource) (message : String)
    → Accepts w request d
    → env.fetch d.config d.cursor ≡ err message
    → (d' : DataSource) × (r : DataSourceRun) × ((execute env w request).0
        ≡ err (error message "DATA_SOURCE_SYNC_FAILED"))
      × (source_after (execute env w request) d.id ≡ some d')
      × (d'.status ≡ failed)
      × (d'.error_message ≡ some message)
      × (d'.cursor ≡ d.cursor)
      × (run_after (execute env w request) env.new_id ≡ some r)
      × (r.status ≡ extracting)
unfolding run_sync abandon save_run save_source fail_sync new_run
failed_fetch_leaves_run env w request d message accepted fetched =
    rw (execute-accepted env w request d accepted, fetched)
      (
        fail_sync env.later (started env d) message,
        merge_row (w.runs env.new_id) (first_run env d),
        refl,
        rw ==_refl,
        refl,
        refl,
        refl,
        save_self w.runs (first_run env d),
        (merge_row-SameProgress (w.runs env.new_id) (first_run env d)).status,
      )
