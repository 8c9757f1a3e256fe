-- ===== src/Tests/Runs.antt =====
-- Tests of runs, their repositories and the projector.
use agentic_substrate.Prelude.{
  ℕ, zero, suc, ◌+◌, ◌<◌, ◌≤◌, ◌≡◌, refl, ap, true, false, none, some, List, [], ◌∷◌, foldl, String,
  str, arith,
}
use agentic_substrate.Kernel.Event.{Event}
use agentic_substrate.Events.{Payload, knowledge_indexed, processing_failed}
use agentic_substrate.Run.Entity.{
  FailureItem, partially_failed, DataSourceRun, new_run, mark_ingesting, is_terminal,
}
use agentic_substrate.Run.Entity.Counts.{indexes, fails, report, reports_counted}
use agentic_substrate.Run.InMemory.{RunTable, store_at, find}
use agentic_substrate.Run.Postgres.Laws.{postgres}
use agentic_substrate.Run.Projector.{UuidText, sync_run_id, RunCompleted}
use agentic_substrate.Run.Effects.{reports, target}
use agentic_substrate.Run.Completion.{
  Announces, announced, announced_once, announced_not_yet, announced_ended_run,
}

-- Identifiers written in unary.
unfoldable pub show_unary : ℕ → String
show_unary zero = String.[]
show_unary (suc n) = String.◌∷◌ "x" (show_unary n)

unfoldable pub count_unary : String → ℕ
count_unary String.[] = 0
count_unary (String.◌∷◌ c s) = suc (count_unary s)

pub count-show : (n : ℕ) → count_unary (show_unary n) ≡ n
unfolding show_unary count_unary
count-show zero = refl
count-show (suc n) = ap suc (count-show n)

unfoldable pub unary : UuidText
unfolding show_unary count_unary
unary = record {
  show = show_unary;
  parse = λ s. some (count_unary s);
  parse-show = λ n. ap some (count-show n);
}

abbrev started : DataSourceRun
started = mark_ingesting 1 (new_run 2 8 1 0) 2

abbrev an_item : FailureItem
an_item = record {
  doc_id = some 6;
  file_name = "contract.pdf";
  error = "timeout";
  external_id = none;
  mime_type = none;
  version_hash = none;
  size_bytes = none;
}

reports_counted_example :
    let r = foldl report started (indexes 5 ∷ fails 6 an_item ∷ []) in
    (r.indexed_files_count ≡ 1)
    × (r.failed_files_count ≡ 1)
    × (r.failure_summary ≡ an_item ∷ [])
    × (r.status ≡ partially_failed)
reports_counted_example = reports_counted 2 8 1 0 1 2 (indexes 5 ∷ fails 6 an_item ∷ [])

abbrev table : RunTable
table = store_at (λ id. none) 2 started

abbrev indexed_event : Event Payload
indexed_event = record {
  aggregate_id = 5;
  aggregate_type = "DocumentAggregate";
  event_version = 6;
  metadata = ("sync_run_id", str "xx") ∷ [];
  payload = knowledge_indexed (record {
    document_id = 5;
    indexed_nodes_count = 3;
    indexed_edges_count = 2;
    kb_id = some 1;
  });
}

abbrev failed_event : Event Payload
failed_event = record {
  aggregate_id = 6;
  aggregate_type = "DocumentAggregate";
  event_version = 3;
  metadata = ("sync_run_id", str "xx") ∷ [];
  payload =
      processing_failed
        (record { document_id = 6; step = "INDEXING"; error_message = "no store"; kb_id = some 1 });
}

abbrev both : List (ℕ × Event Payload)
both = (7, indexed_event) ∷ (8, failed_event) ∷ []

program : Unit {0}
unfolding new_run mark_ingesting is_terminal store_at reports target sync_run_id
program = tt

started_live : is_terminal started.status ≡ false
unfolding program
started_live = refl

started_found : find table 2 ≡ some started
unfolding program
started_found = refl

started_counts :
    started.indexed_files_count + started.failed_files_count < started.total_files_discovered
unfolding program
started_counts = omega arith

both_enough :
    started.total_files_discovered
    ≤ started.indexed_files_count + started.failed_files_count + reports unary 2 both
unfolding program show_unary count_unary unary
both_enough = omega arith

announced_once_example :
    (c : RunCompleted) × (announced unary postgres 2 table both ≡ c ∷ [])
    × Announces 2 started.total_files_discovered c
announced_once_example =
    announced_once unary postgres 2 table started both started_found started_live started_counts
      both_enough

first_too_few :
    started.indexed_files_count
      + started.failed_files_count
      + reports unary 2 ((7, indexed_event) ∷ [])
    < started.total_files_discovered
unfolding program show_unary count_unary unary
first_too_few = omega arith

announced_not_yet_example : announced unary postgres 2 table ((7, indexed_event) ∷ []) ≡ []
announced_not_yet_example =
    announced_not_yet unary postgres 2 table started ((7, indexed_event) ∷ []) started_found
      started_live first_too_few

abbrev ended : DataSourceRun
ended = mark_ingesting 1 (new_run 2 8 1 0) 0

ended_terminal : is_terminal ended.status ≡ true
unfolding program
ended_terminal = refl

abbrev ended_table : RunTable
ended_table = store_at (λ id. none) 2 ended

ended_found : find ended_table 2 ≡ some ended
unfolding program
ended_found = refl

announced_ended_run_example : announced unary postgres 2 ended_table both ≡ []
announced_ended_run_example =
    announced_ended_run unary postgres 2 ended_table ended both ended_found ended_terminal
