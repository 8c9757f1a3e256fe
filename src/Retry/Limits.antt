-- ===== src/Retry/Limits.antt =====
-- Retries of failures of one file name, retries that resolve nothing, and retries of a disabled
-- data source.
use agentic_substrate.Prelude.{
  ℕ, ◌+◌, ◌≡◌, ◌≢◌, refl, ◌∙◌, ap, sym, subst, inr, Option, none, some, List, [], ◌∷◌, String,
  eq_refl, All, length, inl,
}
use mathlib.Core.Bool.{true≢false}
use agentic_substrate.Kernel.Result.{Result, ok, err}
use agentic_substrate.Run.Entity.{
  DataSourceRun, FailureItem, ingesting, mark_retrying, other_failures, resolve_item_success,
}
use agentic_substrate.Run.Postgres.{merge_row}
use agentic_substrate.Run.Postgres.Rows.{merge_row-SameProgress}
use agentic_substrate.DataSource.{DataSource, idle, disabled, failed, pending_cursor, fail_sync}
use agentic_substrate.Sync.Execute.{World, save_run}
use agentic_substrate.Retry.{
  RetryServices, RetryRequest, RetryEnvironment, resolved, kept, retry_item, retry_items,
  settle_retry, retry_run, retry_with, conclude, retry_failed_items,
}
use agentic_substrate.Retry.Outcomes.{
  Completes, is_crash, resolve_item_success_lem, outcome_cases, after_resolved, after_kept,
}
use agentic_substrate.Retry.Cursor.{
  Retries, retried_source, retry-accepted, promoted_cursor, retry_run-ended, settle_retry-none_left,
  settle_retry_lem, source_saved, before_end,
}

idle≢disabled : idle ≢ disabled
idle≢disabled e = cc

failed≢disabled : failed ≢ disabled
failed≢disabled e = cc

-- All the items have the name.
abbrev pub AllNamed : String → List FailureItem → Type 0
AllNamed name items = All (λ f. f.file_name ≡ name) items

other_failures-AllNamed :
    (name : String) (items : List FailureItem)
    → AllNamed name items
    → other_failures name items ≡ []
unfolding other_failures
other_failures-AllNamed name [] h = refl
other_failures-AllNamed name (f ∷ items) h =
    rw (h.0, eq_refl name) (other_failures-AllNamed name items h.1)

-- Every outcome keeps its failure.
unfoldable pub AllKept : RetryServices → RetryRequest → ℕ → List FailureItem → Type 0
AllKept sv request position [] = Unit
AllKept sv request position (f ∷ items) =
    (retry_item sv request position f ≡ kept) × AllKept sv request (position + 1) items

module _ (env : RetryEnvironment) (request : RetryRequest) where
  AllKept-eq :
      (position : ℕ) (items : List FailureItem) (r : DataSourceRun) (count : ℕ)
      → AllKept env.services request position items
      → retry_items env request position items r count ≡ ok (r, count)
  unfolding AllKept
  AllKept-eq position [] r count h = unfold retry_items in refl
  AllKept-eq position (f ∷ items) r count h =
      after_kept env request position f items r count h.0
      ∙ AllKept-eq (position + 1) items r count h.1

  -- Once a run lists no failures, the loop leaves it at none.
  abbrev EndsClean : ℕ → List FailureItem → DataSourceRun → ℕ → Type 0
  EndsClean position items r count =
      (r' : DataSourceRun) × (count' : ℕ) × (retry_items env request position items r count
        ≡ ok (r', count'))
      × (r'.failed_files_count ≡ 0)

  none_listed-EndsClean :
      (position : ℕ) (items : List FailureItem) (r : DataSourceRun) (count : ℕ)
      → r.failure_summary ≡ []
      → r.failed_files_count ≡ 0
      → Completes env.services request position items
      → EndsClean position items r count
  unfolding Completes
  none_listed-EndsClean position [] r count s z c = (r, count, unfold retry_items in refl, z)
  none_listed-EndsClean position (f ∷ items) r count s z c =
      elim (outcome_cases (retry_item env.services request position f)) [
        | inl e ↦
            let (summary, count_of, id) = resolve_item_success_lem env.later r f.file_name in
            let none_other =
              ap (other_failures f.file_name) s ∙ other_failures-AllNamed f.file_name [] tt in
            let (r', count', ends, clean) =
              none_listed-EndsClean (position + 1) items
                (resolve_item_success env.later r f.file_name) (count + 1) (summary ∙ none_other)
                (count_of ∙ ap length none_other) c.1 in
            (r', count', after_resolved env request position f items r count e ∙ ends, clean)
        | inr (inl e) ↦
            let (r', count', ends, clean) =
              none_listed-EndsClean (position + 1) items r count s z c.1 in
            (r', count', after_kept env request position f items r count e ∙ ends, clean)
        | inr (inr (message, e)) ↦ absurd (true≢false (ap is_crash (sym e) ∙ c.0))
      ]

module _ (env : RetryEnvironment) (w : World) (request : RetryRequest) (d : DataSource)
    (r : DataSourceRun) (accepted : Retries w request d r) where
  -- In a retry that is accepted and finds its connector, and in which no reprocessing raises an
  -- exception: if all failures of the run have one file name and the first of them is resolved,
  -- the cursor that was set aside, where there is one, is promoted, whether the other files are
  -- resolved or not.
  pub same_name_promotes :
      (f : FailureItem) (items : List FailureItem)
      → r.failure_summary ≡ f ∷ items
      → AllNamed f.file_name items
      → env.services.connect ≡ none
      → Completes env.services request 0 r.failure_summary
      → retry_item env.services request 0 f ≡ resolved
      → (d' : DataSource) × ((retry_failed_items env w request).1.data_sources d.id ≡ some d')
        × (d'.cursor ≡ promoted_cursor d)
        × (pending_cursor d' ≡ none)
  unfolding Completes mark_retrying pending_cursor
  same_name_promotes f items summary named connected completes first =
      let r1 = resolve_item_success env.later (mark_retrying r) f.file_name in
      let (left, count_of, id) = resolve_item_success_lem env.later (mark_retrying r) f.file_name in
      let none_other =
        ap (other_failures f.file_name) summary
        ∙ other_failures-AllNamed f.file_name (f ∷ items) (refl, named) in
      let (r', count', ends, clean) =
        none_listed-EndsClean env request 1 items r1 1 (left ∙ none_other)
          (count_of ∙ ap length none_other)
          (subst (Completes env.services request 0) summary completes).1 in
      let ended =
        ap (λ fs. retry_items env request 0 fs (mark_retrying r) 0) summary
        ∙ after_resolved env request 0 f items (mark_retrying r) 0 first
        ∙ ends in
      let source = settle_retry env.later (retried_source env d) r' in
      let cursors = settle_retry-none_left env.later (retried_source env d) r' clean in
      rw (retry-accepted env w request d r accepted) (
        source,
        (retry_run-ended env w request d r connected r' count' ended).1,
        cursors.0,
        cursors.1,
      )

  -- A retry that is accepted and finds its connector, and that leaves every failure as it is,
  -- stores the run with its failures and its count of indexed files, and with the status
  -- `ingesting`.
  pub none_resolved_leaves_run :
      env.services.connect ≡ none
      → AllKept env.services request 0 r.failure_summary
      → (r' : DataSourceRun) × ((retry_failed_items env w request).1.runs r.id ≡ some r')
        × (r'.status ≡ ingesting)
        × (r'.failure_summary ≡ r.failure_summary)
        × (r'.indexed_files_count ≡ r.indexed_files_count)
  unfolding mark_retrying
  none_resolved_leaves_run connected all_kept =
      let ended = AllKept-eq env request 0 r.failure_summary (mark_retrying r) 0 all_kept in
      let row = (before_end env w request d r).runs r.id in
      let same = merge_row-SameProgress row (mark_retrying r) in
      rw (retry-accepted env w request d r accepted) (
        merge_row row (mark_retrying r),
        (retry_run-ended env w request d r connected (mark_retrying r) 0 ended).2,
        same.status,
        same.failures,
        same.indexed,
      )

  conclude-status :
      (w' : World) (result : Result (DataSourceRun × ℕ) String)
      → (d' : DataSource) × ((conclude env w' (retried_source env d) result).1.data_sources d.id
          ≡ some d')
        × (d'.status ≢ disabled)
  unfolding save_run fail_sync
  conclude-status w' (ok (r', count)) =
      let (id, status) = settle_retry_lem env.later (retried_source env d) r' in
      (
        settle_retry env.later (retried_source env d) r',
        source_saved w' d.id (settle_retry env.later (retried_source env d) r') id,
        rw status (λ e. absurd (idle≢disabled e)),
      )
  conclude-status w' (err message) = (
    fail_sync env.later (retried_source env d) message,
    source_saved w' d.id (fail_sync env.later (retried_source env d) message) refl,
    λ e. absurd (failed≢disabled e),
  )

  retry_with-status :
      (w' : World) (o : Option String)
      → (d' : DataSource) × ((retry_with env request w'
              (retried_source env d)
              (mark_retrying r)
              o).1.data_sources
            d.id
          ≡ some d')
        × (d'.status ≢ disabled)
  retry_with-status w' none = conclude-status w' _
  retry_with-status w' (some message) = conclude-status w' (err message)

  -- A retry that is accepted leaves the data source in another status than `disabled`, also if it
  -- was disabled before.
  pub retry_enables :
      (d' : DataSource) × ((retry_failed_items env w request).1.data_sources d.id ≡ some d')
      × (d'.status ≢ disabled)
  unfolding retry_run
  retry_enables =
      rw (retry-accepted env w request d r accepted)
        (retry_with-status (before_end env w request d r) env.services.connect)
