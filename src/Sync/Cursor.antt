-- ===== src/Sync/Cursor.antt =====
-- The cursor of the data source after a synchronisation, with and without files that failed.
use agentic_substrate.Prelude.{
  ℕ, ◌<◌, ◌≡◌, ◌⊎◌, inl, inr, refl, ◌∙◌, ap, sym, false, Option, none, some, List, String, map,
  length, arith, ==_refl, or_else,
}
use agentic_substrate.Kernel.Result.{ok}
use agentic_substrate.Run.Entity.{DataSourceRun, new_run, mark_ingesting}
use agentic_substrate.Run.InMemory.{RunTable}
use agentic_substrate.Run.Postgres.{save}
use agentic_substrate.DataSource.{DataSource, idle, syncing, failed, start_sync, pending_cursor}
use agentic_substrate.Sync.Item.{ItemOutcome, process_item}
use agentic_substrate.Sync.Execute.{
  Environment, World, SyncRequest, Changes, context_of, execute, run_sync, synchronise, save_source,
  save_run, process_all, reconcile, settle_cursor, other_kb, SyncResult,
}
use agentic_substrate.Sync.Accounting.{
  Listed, failures, outcomes_counted, reconcile-positive, reconcile-zero, settle_cursor-held,
  settle_cursor-moved,
}

-- Every stored run lists its failures.
abbrev pub AllListed : RunTable → Type 0
AllListed t = (id : ℕ) (r : DataSourceRun) → t id ≡ some r → Listed r

-- The data source after `start_sync`.
abbrev pub started : Environment → DataSource → DataSource
started env d = record d { status = syncing; error_message = none; updated_at = env.now }

-- The run of this synchronisation as it is first saved.
abbrev pub first_run : Environment → DataSource → DataSourceRun
first_run env d = new_run env.new_id d.id d.kb_id env.now

abbrev pub outcomes : Environment → DataSource → Changes → List ItemOutcome
outcomes env d changes =
    map (process_item env.services (context_of env (started env d) (first_run env d)))
      (env.arrange changes.items)

-- A request for the data source `d`, which may be synchronised.
pub record Accepts (w : World) (request : SyncRequest) (d : DataSource) : Type 0 where
  pub found : w.data_sources request.data_source_id ≡ some d
  pub same_kb : other_kb request.kb_id d.kb_id ≡ false
  pub ready : (d.status ≡ idle) ⊎ (d.status ≡ failed)

pub execute-accepted :
    (env : Environment) (w : World) (request : SyncRequest) (d : DataSource)
    → Accepts w request d
    → execute env w request ≡ run_sync env w (started env d)
unfolding execute start_sync
execute-accepted env w request d h =
    rw (h.found, h.same_kb) (elim h.ready [ inl e ↦ ground arith | inr e ↦ ground arith ])

-- The stored data source after an execution.
abbrev pub source_after : SyncResult → ℕ → Option DataSource
source_after (result, w, events) id = w.data_sources id

-- The runs as they are at the reload.
abbrev pub reloaded : Environment → World → DataSource → DataSourceRun → Changes → RunTable
reloaded env w d r changes =
    env.meanwhile (save w.runs (mark_ingesting env.now r (length changes.items)))

abbrev pub processed : Environment → DataSource → DataSourceRun → Changes → DataSourceRun
processed env d r changes =
    process_all env (context_of env d r) (mark_ingesting env.now r (length changes.items))
      changes.items

-- The run that is saved at the end.
abbrev pub final_run : Environment → World → DataSource → DataSourceRun → Changes → DataSourceRun
final_run env w d r changes =
    reconcile env.later (reloaded env w d r changes r.id) (processed env d r changes)

-- The stored runs once the started data source and the new run are saved.
abbrev pub opened : Environment → World → DataSource → World
opened env w d = save_run (save_source w (started env d)) (first_run env d)

settle_cursor_id :
    (now : ℕ) (d : DataSource) (r : DataSourceRun) (next : Option String)
    → (settle_cursor now d r next).id ≡ d.id
unfolding settle_cursor
settle_cursor_id now d r none = ground arith
settle_cursor_id now d r (some c) = ground arith

-- The data source that an accepted request leaves is the started one, with its cursor settled by
-- the run that is saved at the end.
pub source_after-execute :
    (env : Environment) (w : World) (request : SyncRequest) (d : DataSource) (changes : Changes)
    → Accepts w request d
    → env.fetch d.config d.cursor ≡ ok changes
    → source_after (execute env w request) d.id
      ≡ some (
          settle_cursor env.later
            (started env d)
            (final_run env (opened env w d) (started env d) (first_run env d) changes)
            changes.next_cursor)
unfolding run_sync synchronise save_source save_run new_run
source_after-execute env w request d changes h fetched =
    rw (execute-accepted env w request d h, fetched, settle_cursor_id, ==_refl)

announced_clean :
    (now : ℕ) (r : DataSourceRun) (total : ℕ)
    → ((mark_ingesting now r total).failed_files_count ≡ r.failed_files_count)
      × ((mark_ingesting now r total).failure_summary ≡ r.failure_summary)
unfolding mark_ingesting
announced_clean now r total = ground arith

save-AllListed : (t : RunTable) (r : DataSourceRun) → AllListed t → Listed r → AllListed (save t r)
unfolding save
save-AllListed t r h l j s e = ground (arith, h j s)

-- Of the run as it is processed: its failures are listed, as many as the items that failed.
pub processed-failures :
    (env : Environment) (d : DataSource) (changes : Changes)
    → let r = processed env (started env d) (first_run env d) changes in
      Listed r × (r.failed_files_count ≡ failures (outcomes env d changes))
unfolding process_all new_run
processed-failures env d changes =
    let clean = announced_clean env.now (first_run env d) (length changes.items) in
    let (listed, count) =
      outcomes_counted env.later (mark_ingesting env.now (first_run env d) (length changes.items))
        (outcomes env d changes) (clean.0 ∙ ap length (sym clean.1)) in
    (listed, omega (arith, count, clean.0))

module _ (env : Environment) (w : World) (request : SyncRequest) (d : DataSource)
    (changes : Changes) (accepted : Accepts w request d)
    (fetched : env.fetch d.config d.cursor ≡ ok changes) where
  abbrev pub latest : Option DataSourceRun
  latest =
      reloaded env (opened env w d) (started env d) (first_run env d) changes (first_run env d).id

  -- A synchronisation that is accepted, whose connector answers, and in which at least one file
  -- fails ends with the data source's cursor where it was and the next cursor set aside, whatever
  -- other tasks did to the stored runs, as long as these list their failures before and after.
  pub failed_file_holds_cursor :
      AllListed w.runs
      → ((t : RunTable) → AllListed t → AllListed (env.meanwhile t))
      → 0 < failures (outcomes env d changes)
      → (d' : DataSource) × (source_after (execute env w request) d.id ≡ some d')
        × (d'.cursor ≡ d.cursor)
        × (pending_cursor d' ≡ changes.next_cursor)
  unfolding save_run save_source new_run
  failed_file_holds_cursor listed keeps some_failed =
      let counts = processed-failures env d changes in
      let base : AllListed (opened env w d).runs =
        save-AllListed w.runs (first_run env d) listed refl in
      let clean = announced_clean env.now (first_run env d) (length changes.items) in
      let announced =
        save-AllListed (opened env w d).runs
          (mark_ingesting env.now (first_run env d) (length changes.items)) base
          (clean.0 ∙ ap length (sym clean.1)) in
      let positive =
        reconcile-positive env.later latest
          (processed env (started env d) (first_run env d) changes) counts.0
          (omega (arith, counts.1)) (keeps _ announced (first_run env d).id) in
      (
        settle_cursor env.later (started env d)
            (final_run env (opened env w d) (started env d) (first_run env d) changes)
            changes.next_cursor,
        source_after-execute env w request d changes accepted fetched,
        (settle_cursor-held env.later (started env d) _ changes.next_cursor positive).0,
        (settle_cursor-held env.later (started env d) _ changes.next_cursor positive).1,
      )

  -- A synchronisation that is accepted and whose connector answers, in which no file fails and the
  -- reloaded run, where there is one, has no failures: the cursor moves to the next one, if the
  -- connector gives one, and none is set aside.
  pub clean_sync_moves_cursor :
      ((l : DataSourceRun) → latest ≡ some l → l.failed_files_count ≡ 0)
      → failures (outcomes env d changes) ≡ 0
      → (d' : DataSource) × (source_after (execute env w request) d.id ≡ some d')
        × (d'.cursor ≡ or_else changes.next_cursor d.cursor)
        × (pending_cursor d' ≡ none)
  clean_sync_moves_cursor clean none_failed =
      let counts = processed-failures env d changes in
      let final = final_run env (opened env w d) (started env d) (first_run env d) changes in
      let zero_failed : final.failed_files_count ≡ 0 =
        reconcile-zero env.later latest (processed env (started env d) (first_run env d) changes)
          counts.0 (counts.1 ∙ none_failed) clean in
      (
        settle_cursor env.later (started env d) final changes.next_cursor,
        source_after-execute env w request d changes accepted fetched,
        (settle_cursor-moved env.later (started env d) final changes.next_cursor zero_failed).0,
        (settle_cursor-moved env.later (started env d) final changes.next_cursor zero_failed).1,
      )
