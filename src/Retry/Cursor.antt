-- ===== src/Retry/Cursor.antt =====
-- What a retry that runs to its end does to the run and to the cursor of the data source.
use agentic_substrate.Prelude.{
  ℕ, ◌+◌, ◌<◌, ◌==◌, ◌≡◌, refl, ◌∙◌, ap, sym, ◌⊎◌, inl, inr, true, false, Option, none, some, List,
  [], ◌∷◌, String, Metadata, null, get_value, length, arith, if◌then◌else◌, Bool-cases,
}
use agentic_substrate.Kernel.Result.{ok}
use agentic_substrate.Run.Entity.{DataSourceRun, FailureItem, mark_retrying}
use agentic_substrate.Run.Postgres.{merge_row}
use agentic_substrate.Run.Postgres.Rows.{save_self, merge_row-SameProgress}
use agentic_substrate.DataSource.{
  DataSource, idle, failed, syncing, disabled, has_key, pending_cursor, promote_pending_cursor,
  start_sync,
}
use agentic_substrate.DataSource.Cursor.{get_value-remove_key}
use agentic_substrate.Sync.Execute.{World, save_source, save_run}
use agentic_substrate.Retry.{
  RetryRequest, RetryResponse, RetryEnvironment, RetryResult, retry_items, settle_retry, retry_run,
  retry_failed_items, response,
}
use agentic_substrate.Retry.Outcomes.{
  unresolved, Completes, NamesDiffer, Apart-nil, retry_items-Loop,
}

-- A request that reaches the retry: of a data source that is not being synchronised, and of a run
-- of it with failures.
pub record Retries (w : World) (request : RetryRequest) (d : DataSource) (r : DataSourceRun)
    : Type 0 where
  pub source_found : w.data_sources request.data_source_id ≡ some d
  pub same_kb : d.kb_id ≡ request.kb_id
  pub not_syncing : (d.status ≡ idle) ⊎ ((d.status ≡ failed) ⊎ (d.status ≡ disabled))
  pub run_found : w.runs request.run_id ≡ some r
  pub of_source : r.data_source_id ≡ d.id
  pub some_failure :
      (f : FailureItem) × (items : List FailureItem) × (r.failure_summary ≡ f ∷ items)

-- The data source while it is retried.
abbrev pub retried_source : RetryEnvironment → DataSource → DataSource
retried_source env d = record d { status = syncing; error_message = none; updated_at = env.now }

start_sync-eq :
    (now : ℕ) (d : DataSource)
    → ((d.status ≡ idle) ⊎ ((d.status ≡ failed) ⊎ (d.status ≡ disabled)))
    → start_sync now d ≡ ok (record d { status = syncing; error_message = none; updated_at = now })
unfolding start_sync
start_sync-eq now d (inl e) = rw e refl
start_sync-eq now d (inr (inl e)) = rw e refl
start_sync-eq now d (inr (inr e)) = rw e refl

==_true : (a b : ℕ) → a ≡ b → (a == b) ≡ true
==_true a b h = ground arith

pub retry-accepted :
    (env : RetryEnvironment) (w : World) (request : RetryRequest) (d : DataSource)
    (r : DataSourceRun)
    → Retries w request d r
    → retry_failed_items env w request ≡ retry_run env request w (retried_source env d) r
unfolding retry_failed_items
retry-accepted env w request d r h =
    let (f, items, summary) = h.some_failure in
    let kb = ==_true d.kb_id request.kb_id h.same_kb in
    let source = ==_true r.data_source_id d.id h.of_source in
    elim h.not_syncing [
      | inl e ↦
          rw
            (
              h.source_found,
              kb,
              e,
              h.run_found,
              source,
              summary,
              start_sync-eq env.now d h.not_syncing,
            )
            refl
      | inr (inl e) ↦
          rw
            (
              h.source_found,
              kb,
              e,
              h.run_found,
              source,
              summary,
              start_sync-eq env.now d h.not_syncing,
            )
            refl
      | inr (inr e) ↦
          rw
            (
              h.source_found,
              kb,
              e,
              h.run_found,
              source,
              summary,
              start_sync-eq env.now d h.not_syncing,
            )
            refl
    ]

has_key-get_value : (k : String) (m : Metadata) → has_key k m ≡ false → get_value k m ≡ null
unfolding has_key get_value
has_key-get_value k [] h = refl
has_key-get_value k ((j, v) ∷ m) h = ground (arith, has_key-get_value k m)

-- What the cursor becomes if the pending one is promoted.
abbrev pub promoted_cursor : DataSource → Option String
promoted_cursor d = if has_key "pending_cursor" d.config then pending_cursor d else d.cursor

pub settle_retry-none_left :
    (now : ℕ) (d : DataSource) (r : DataSourceRun)
    → r.failed_files_count ≡ 0
    → ((settle_retry now d r).cursor ≡ promoted_cursor d)
      × (pending_cursor (settle_retry now d r) ≡ none)
unfolding settle_retry promote_pending_cursor pending_cursor
settle_retry-none_left now d r h = elim (Bool-cases (has_key "pending_cursor" d.config)) [
  | inl e ↦ rw (h, e) (refl, simp get_value-remove_key)
  | inr e ↦ rw (h, e) (refl, rw (has_key-get_value "pending_cursor" d.config e) refl)
]

settle_retry-some_left :
    (now : ℕ) (d : DataSource) (r : DataSourceRun)
    → 0 < r.failed_files_count
    → ((settle_retry now d r).cursor ≡ d.cursor)
      × (pending_cursor (settle_retry now d r) ≡ pending_cursor d)
unfolding settle_retry promote_pending_cursor pending_cursor
settle_retry-some_left now d r h = ground arith

settle_retry-cursors :
    (now : ℕ) (d : DataSource) (r : DataSourceRun) (n : ℕ)
    → r.failed_files_count ≡ n
    → ((settle_retry now d r).cursor ≡ (if n == 0 then promoted_cursor d else d.cursor))
      × (pending_cursor (settle_retry now d r) ≡ (if n == 0 then none else pending_cursor d))
settle_retry-cursors now d r n h = elim (Bool-cases (n == 0)) [
  | inl e ↦ rw e (settle_retry-none_left now d r (ground arith))
  | inr e ↦ rw e (settle_retry-some_left now d r (ground arith))
]

pub settle_retry_lem :
    (now : ℕ) (d : DataSource) (r : DataSourceRun)
    → ((settle_retry now d r).id ≡ d.id) × ((settle_retry now d r).status ≡ idle)
unfolding settle_retry promote_pending_cursor
settle_retry_lem now d r = ground arith

pub source_saved :
    (w : World) (id : ℕ) (d : DataSource) → d.id ≡ id → (save_source w d).data_sources id ≡ some d
unfolding save_source
source_saved w id d h = rw (==_true id d.id (sym h)) refl

-- What a retry that runs to its end leaves, if `left` are the failures that it does not resolve.
pub record Settled (result : RetryResult) (d : DataSource) (r : DataSourceRun)
    (left : List FailureItem) : Type 0 where
  pub answer : RetryResponse
  pub answered : result.0 ≡ ok answer
  pub remaining : answer.remaining_failed_count ≡ length left
  pub reprocessed : answer.reprocessed_count + length left ≡ length r.failure_summary
  pub source : DataSource
  pub source_stored : result.1.data_sources d.id ≡ some source
  pub idle_again : source.status ≡ idle
  pub run : DataSourceRun
  pub run_stored : result.1.runs r.id ≡ some run
  pub summary : run.failure_summary ≡ left
  pub cursor : source.cursor ≡ (if length left == 0 then promoted_cursor d else d.cursor)
  pub pending : pending_cursor source ≡ (if length left == 0 then none else pending_cursor d)

module _ (env : RetryEnvironment) (w : World) (request : RetryRequest) (d : DataSource)
    (r : DataSourceRun) where
  -- What is stored when the loop is over.
  abbrev pub before_end : World
  before_end =
      let saved = save_run (save_source w (retried_source env d)) (mark_retrying r) in
      record saved { runs = env.meanwhile saved.runs }

  pub retry_run-ended :
      env.services.connect ≡ none
      → (r' : DataSourceRun) (count : ℕ)
      → retry_items env request 0 r.failure_summary (mark_retrying r) 0 ≡ ok (r', count)
      → let source = settle_retry env.later (retried_source env d) r' in
        ((retry_run env request w (retried_source env d) r).0 ≡ ok (response d r' count))
        × ((retry_run env request w (retried_source env d) r).1.data_sources d.id ≡ some source)
        × ((retry_run env request w (retried_source env d) r).1.runs r'.id
            ≡ some (merge_row (before_end.runs r'.id) r'))
  unfolding retry_run save_source save_run
  retry_run-ended connected r' count ended =
      let source = settle_retry env.later (retried_source env d) r' in
      rw (connected, ended)
        (
          refl,
          source_saved before_end d.id source
              (settle_retry_lem env.later (retried_source env d) r').0,
          save_self before_end.runs r',
        )

  -- A retry that is accepted and finds its connector, of a run whose failures are all listed under
  -- names that differ from one another, and in which no reprocessing raises an exception, ends: it
  -- answers how many failures it resolved and how many are left, stores the run with those that
  -- are left, and stores the data source as idle. If none is left the cursor that was set aside,
  -- where there is one, is the cursor now, and none is set aside; if some are left both cursors
  -- stay.
  pub retry_settles :
      Retries w request d r
      → r.failed_files_count ≡ length r.failure_summary
      → NamesDiffer r.failure_summary
      → env.services.connect ≡ none
      → Completes env.services request 0 r.failure_summary
      → Settled
          (retry_failed_items env w request)
          d
          r
          (unresolved env.services request 0 r.failure_summary)
  unfolding mark_retrying pending_cursor
  retry_settles accepted listed differ connected completes =
      let (r', count, ended, loop) =
        retry_items-Loop env request 0 [] r.failure_summary (mark_retrying r) 0 refl listed
          (Apart-nil r.failure_summary) differ completes in
      let (answered, source_stored, run_stored) = retry_run-ended connected r' count ended in
      let source = settle_retry env.later (retried_source env d) r' in
      let failed_left = loop.listed ∙ ap length loop.summary in
      rw (retry-accepted env w request d r accepted) (record {
        answer = response d r' count;
        answered = answered;
        remaining = failed_left;
        reprocessed = omega (arith, loop.counted);
        source = source;
        source_stored = source_stored;
        idle_again = (settle_retry_lem env.later (retried_source env d) r').1;
        run = merge_row (before_end.runs r'.id) r';
        run_stored =
            ap (λ id. (retry_run env request w (retried_source env d) r).1.runs id)
              (sym loop.same_run)
            ∙ run_stored;
        summary = (merge_row-SameProgress (before_end.runs r'.id) r').failures ∙ loop.summary;
        cursor = (settle_retry-cursors env.later (retried_source env d) r' _ failed_left).0;
        pending = (settle_retry-cursors env.later (retried_source env d) r' _ failed_left).1;
      })
