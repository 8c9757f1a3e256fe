-- ===== src/Tests/Syncs.antt =====
-- Tests of the synchronisation of a data source.
use agentic_substrate.Prelude.{
  ℕ, ◌≡◌, refl, ap, sym, inl, Option, none, some, List, [], ◌∷◌, String, str, or_else, All,
  if◌then◌else◌, ◌==◌, ◌+◌, arith,
}
use agentic_substrate.Kernel.Result.{Result, ok, err, DomainError}
use agentic_substrate.Events.{indexed}
use agentic_substrate.Run.Entity.{extracting, ingesting, DataSourceRun, new_run, mark_ingesting}
use agentic_substrate.Run.Postgres.{save}
use agentic_substrate.DataSource.{
  DataSource, idle, failed, google_drive_folder, pending_cursor, set_pending_cursor,
  promote_pending_cursor,
}
use agentic_substrate.DataSource.Cursor.{promote-set_pending}
use agentic_substrate.Sync.Item.{
  DiscoveredItem, Downloaded, process_item, AttachReply, returned, settle, attach_from,
  download_from, unchanged, DocumentInfo,
}
use agentic_substrate.Sync.Execute.{
  Changes, SyncRequest, World, Environment, save_run, save_source, execute, error,
}
use agentic_substrate.Sync.Retries.{
  StopsAt, goes_on, is_error, attach_from-StopsAt, download_from-StopsAt,
}
use agentic_substrate.Sync.Accounting.{failures}
use agentic_substrate.Sync.Cursor.{
  Accepts, outcomes, source_after, latest, failed_file_holds_cursor, clean_sync_moves_cursor,
}
use agentic_substrate.Sync.Stuck.{
  run_after, status_of, unchanged_files_uncounted, failed_fetch_leaves_run,
}

abbrev source : DataSource
source = record {
  id = 1;
  kb_id = 2;
  name = "folder";
  data_source_type = google_drive_folder;
  status = idle;
  cursor = some "c1";
  sync_interval_minutes = 15;
  last_synced_at = none;
  error_message = none;
  config = [];
  created_at = 0;
  updated_at = 0;
}

abbrev world : World
world = record { data_sources = λ id. some source; runs = λ id. none }

abbrev request : SyncRequest
request = record { data_source_id = 1; kb_id = none }

abbrev accepted : Accepts world request source
accepted = record { found = refl; same_kb = refl; ready = inl refl }

abbrev item : DiscoveredItem
item = record {
  external_id = "x";
  name = "report.pdf";
  mime_type = "application/pdf";
  version_hash = "v2";
  size_bytes = 7;
}

abbrev changes : Changes
changes = record { items = item ∷ []; next_cursor = some "c2" }

abbrev held : DocumentInfo
held = record {
  doc_id = 5;
  file_name = "report.pdf";
  status = indexed;
  metadata = ("external_id", str "x") ∷ ("version_hash", str "v2") ∷ [];
}

-- A connector that lists the file and gives it at the `n`-th attempt.
abbrev arrives_at : ℕ → ℕ → Result Downloaded String
arrives_at n attempt =
    if attempt == n
    then ok (record { content = some (1 ∷ []); mime_type = "application/pdf"; version_hash = "v2" })
    else err "gone"

abbrev busy : DomainError
busy = record { message = "Concurrency conflict"; code = "SAVE" }

abbrev attaches_second : ℕ → AttachReply
attaches_second attempt = if attempt == 1 then returned (err busy) else returned (ok 9)

abbrev environment : ℕ → List DocumentInfo → Result Changes String → Environment
environment arrival documents answer = record {
  fetch = λ config cursor. answer;
  services = record {
    download = λ id mime n. arrives_at arrival n;
    attach = λ r n. attaches_second n;
  };
  documents = documents;
  max_file_size_bytes = 100;
  arrange = λ items. items;
  meanwhile = λ runs. runs;
  new_id = 8;
  now = 10;
  later = 20;
}

abbrev losing : Environment
losing = environment 9 [] (ok changes)

abbrev working : Environment
working = environment 2 [] (ok changes)

one_fails : failures (outcomes losing source changes) ≡ 1
unfolding failures process_item
one_fails = refl

none_fails : failures (outcomes working source changes) ≡ 0
unfolding failures process_item
none_fails = refl

failed_file_holds_cursor_example :
    (d' : DataSource) × (source_after (execute losing world request) 1 ≡ some d')
    × (d'.cursor ≡ some "c1")
    × (pending_cursor d' ≡ some "c2")
failed_file_holds_cursor_example =
    failed_file_holds_cursor losing world request source changes accepted refl (λ id r e. cc)
      (λ t h. h) (omega (arith, one_fails))

failed_count : Option DataSourceRun → ℕ
failed_count none = 0
failed_count (some r) = r.failed_files_count

still_clean :
    (l : DataSourceRun)
    → latest working world request source changes accepted refl ≡ some l
    → l.failed_files_count ≡ 0
unfolding save_run save_source mark_ingesting new_run save failed_count
still_clean l e = ap (λ (o : Option DataSourceRun). failed_count o) (sym e)

clean_sync_moves_cursor_example :
    (d' : DataSource) × (source_after (execute working world request) 1 ≡ some d')
    × (d'.cursor ≡ or_else (some "c2") (some "c1"))
    × (pending_cursor d' ≡ none)
clean_sync_moves_cursor_example =
    clean_sync_moves_cursor working world request source changes accepted refl still_clean
      none_fails

-- With the file in the knowledge base already.
abbrev quiet : Environment
quiet = environment 9 (held ∷ []) (ok changes)

quiet_unchanged : All (λ o. o ≡ unchanged) (outcomes quiet source changes)
unfolding process_item
quiet_unchanged = (refl, tt)

unchanged_files_uncounted_example :
    (r : DataSourceRun) × (run_after (execute quiet world request) r.id ≡ some r)
    × (status_of (execute quiet world request) ≡ some ingesting)
    × (r.status ≡ ingesting)
    × (r.indexed_files_count ≡ 0)
    × (r.total_files_discovered ≡ 1)
unchanged_files_uncounted_example =
    unchanged_files_uncounted quiet world request source changes accepted refl (λ t. refl)
      quiet_unchanged (λ e. omega arith)

abbrev broken : Environment
broken = environment 9 [] (err "no access")

failed_fetch_leaves_run_example :
    (d' : DataSource) × (r : DataSourceRun) × ((execute broken world request).0
      ≡ err (error "no access" "DATA_SOURCE_SYNC_FAILED"))
    × (source_after (execute broken world request) 1 ≡ some d')
    × (d'.status ≡ failed)
    × (d'.error_message ≡ some "no access")
    × (d'.cursor ≡ some "c1")
    × (run_after (execute broken world request) 8 ≡ some r)
    × (r.status ≡ extracting)
failed_fetch_leaves_run_example =
    failed_fetch_leaves_run broken world request source "no access" accepted refl

attach_from-StopsAt_example :
    (n : ℕ) × (attach_from attaches_second 3 1 ≡ settle (attaches_second (1 + n)))
    × StopsAt goes_on (λ k. settle (attaches_second k)) 1 3 n
attach_from-StopsAt_example = attach_from-StopsAt attaches_second 3 1

download_from-StopsAt_example :
    (n : ℕ) × (download_from (arrives_at 2) 2 1 ≡ arrives_at 2 (1 + n))
    × StopsAt is_error (arrives_at 2) 1 2 n
download_from-StopsAt_example = download_from-StopsAt (arrives_at 2) 2 1

promote-set_pending_example :
    ((set_pending_cursor 3 source (some "c9")).cursor ≡ some "c1")
    × ((promote_pending_cursor 4 (set_pending_cursor 3 source (some "c9"))).cursor ≡ some "c9")
    × (pending_cursor (promote_pending_cursor 4 (set_pending_cursor 3 source (some "c9"))) ≡ none)
promote-set_pending_example = promote-set_pending 3 4 source "c9"
