-- ===== src/Tests/Retries.antt =====
-- Tests of the retry of failures.
use agentic_substrate.Prelude.{
  ℕ, ◌==◌, ◌≡◌, ◌≢◌, refl, inl, inr, none, some, List, [], ◌∷◌, String, str, length, if◌then◌else◌,
}
use agentic_substrate.Kernel.Result.{ok, err}
use agentic_substrate.Run.Entity.{DataSourceRun, FailureItem, partially_failed, ingesting}
use agentic_substrate.DataSource.{
  DataSource, idle, disabled, google_drive_folder, pending_cursor, DataSourceStatus,
}
use agentic_substrate.Sync.Item.{returned, raised}
use agentic_substrate.Sync.Execute.{World}
use agentic_substrate.Retry.{
  RetryRequest, RetryEnvironment, retry_item, retry_failed_items, resolved,
}
use agentic_substrate.Retry.Outcomes.{unresolved, Completes}
use agentic_substrate.Retry.Cursor.{Retries, Settled, promoted_cursor, retry_settles}
use agentic_substrate.Retry.Limits.{
  AllKept, same_name_promotes, none_resolved_leaves_run, retry_enables,
}

abbrev source : DataSourceStatus → DataSource
source status = record {
  id = 1;
  kb_id = 2;
  name = "folder";
  data_source_type = google_drive_folder;
  status = status;
  cursor = some "c1";
  sync_interval_minutes = 15;
  last_synced_at = none;
  error_message = none;
  config = ("pending_cursor", str "c2") ∷ [];
  created_at = 0;
  updated_at = 0;
}

abbrev failure : String → String → FailureItem
failure name external_id = record {
  doc_id = none;
  file_name = name;
  error = "gone";
  external_id = some external_id;
  mime_type = some "text/plain";
  version_hash = none;
  size_bytes = none;
}

abbrev run : List FailureItem → DataSourceRun
run items = record {
  id = 7;
  data_source_id = 1;
  kb_id = 2;
  status = partially_failed;
  total_files_discovered = 3;
  indexed_files_count = 1;
  failed_files_count = length items;
  failure_summary = items;
  pending_cursor = none;
  started_at = 0;
  completed_at = some 9;
}

abbrev world : DataSourceStatus → List FailureItem → World
world status items = record {
  data_sources = λ id. some (source status);
  runs = λ id. some (run items);
}

abbrev request : RetryRequest
request = record { kb_id = 2; data_source_id = 1; run_id = 7 }

-- Only the file at the given position is there.
abbrev environment : ℕ → RetryEnvironment
environment n = record {
  services = record {
    connect = none;
    download = λ position id mime.
        if position == n
        then ok (record { content = some []; mime_type = "text/plain"; version_hash = "v" })
        else err "gone";
    attach = λ position r. returned (ok 4);
    reprocess = λ position kb doc. raised "not stored";
  };
  meanwhile = λ runs. runs;
  now = 10;
  later = 20;
}

abbrev two_names : List FailureItem
two_names = failure "a" "x" ∷ failure "b" "y" ∷ []

abbrev one_name : List FailureItem
one_name = failure "a" "x" ∷ failure "a" "y" ∷ []

two_names-Completes : Completes (environment 0).services request 0 two_names
unfolding Completes retry_item
two_names-Completes = (refl, (refl, tt))

one_name-Completes : Completes (environment 0).services request 0 one_name
unfolding Completes retry_item
one_name-Completes = (refl, (refl, tt))

second_left : unresolved (environment 0).services request 0 two_names ≡ failure "b" "y" ∷ []
unfolding unresolved retry_item
second_left = refl

abbrev retries : Retries (world idle two_names) request (source idle) (run two_names)
retries = record {
  source_found = refl;
  same_kb = refl;
  not_syncing = inl refl;
  run_found = refl;
  of_source = refl;
  some_failure = (_, _, refl);
}

abbrev retries_one_name : Retries (world disabled one_name) request (source disabled) (run one_name)
retries_one_name = record {
  source_found = refl;
  same_kb = refl;
  not_syncing = inr (inr refl);
  run_found = refl;
  of_source = refl;
  some_failure = (_, _, refl);
}

retry_settles_example :
    Settled
      (retry_failed_items (environment 0) (world idle two_names) request)
      (source idle)
      (run two_names)
      (unresolved (environment 0).services request 0 two_names)
retry_settles_example =
    retry_settles (environment 0) (world idle two_names) request (source idle) (run two_names)
      retries refl ((refl, tt), (tt, tt)) refl two_names-Completes

first_resolved : retry_item (environment 0).services request 0 (failure "a" "x") ≡ resolved
unfolding retry_item
first_resolved = refl

same_name_promotes_example :
    (d' : DataSource) × ((retry_failed_items
          (environment 0)
          (world disabled one_name)
          request).1.data_sources
        1
      ≡ some d')
    × (d'.cursor ≡ promoted_cursor (source disabled))
    × (pending_cursor d' ≡ none)
same_name_promotes_example =
    same_name_promotes (environment 0) (world disabled one_name) request (source disabled)
      (run one_name) retries_one_name (failure "a" "x") (failure "a" "y" ∷ []) refl (refl, tt) refl
      one_name-Completes first_resolved

nothing_there : AllKept (environment 9).services request 0 two_names
unfolding AllKept retry_item
nothing_there = (refl, (refl, tt))

none_resolved_leaves_run_example :
    (r' : DataSourceRun) × ((retry_failed_items
          (environment 9)
          (world idle two_names)
          request).1.runs
        7
      ≡ some r')
    × (r'.status ≡ ingesting)
    × (r'.failure_summary ≡ two_names)
    × (r'.indexed_files_count ≡ 1)
none_resolved_leaves_run_example =
    none_resolved_leaves_run (environment 9) (world idle two_names) request (source idle)
      (run two_names) retries refl nothing_there

retry_enables_example :
    (d' : DataSource) × ((retry_failed_items
          (environment 9)
          (world disabled one_name)
          request).1.data_sources
        1
      ≡ some d')
    × (d'.status ≢ disabled)
retry_enables_example =
    retry_enables (environment 9) (world disabled one_name) request (source disabled) (run one_name)
      retries_one_name
