-- ===== src/Tests/UseCases.antt =====
-- Tests of the use cases on documents, of the handler that replaces them, and of the watchdog.
use agentic_substrate.Prelude.{
  ℕ, ◌+◌, ◌≤◌, ◌<◌, ◌≡◌, refl, true, false, none, some, List, [], ◌∷◌, length, str, get_value, ◌==◌,
  All, arith,
}
use agentic_substrate.Text.{codes}
use agentic_substrate.Kernel.Result.{ok, is_ok}
use agentic_substrate.Kernel.Event.{Event}
use agentic_substrate.Events.{Payload, KnowledgeIndexed, knowledge_indexed}
use agentic_substrate.Kernel.Aggregate.{mark_events_as_committed}
use agentic_substrate.Document.Commands.{create, is_deleted}
use agentic_substrate.Document.Repository.{save, get_by_id}
use agentic_substrate.KnowledgeBase.State.{KnowledgeBaseAggregate, initial}
use agentic_substrate.UseCases.World.{World}
use agentic_substrate.UseCases.Attach.{AttachAndStoreDocumentRequest, Attempt, attach_and_store}
use agentic_substrate.UseCases.Attach.Stored.{IsAttached, attach_and_store-IsAttached}
use agentic_substrate.UseCases.Reprocess.{DocumentRow, reprocess_document}
use agentic_substrate.UseCases.Reprocess.Results.{IsRestarted, reprocess-IsRestarted}
use agentic_substrate.UseCases.Reprocess.Deleted.{after_deletion, deleted_not_reprocessed}
use agentic_substrate.UseCases.DeleteDocument.{delete_by_request}
use agentic_substrate.UseCases.DeleteDocument.Results.{IsDeleted, delete_document-IsDeleted}
use agentic_substrate.UseCases.Swap.{handle_swap}
use agentic_substrate.UseCases.Swap.Results.{Names, in_metadata, swap-IsDeleted}
use agentic_substrate.UseCases.Watchdog.{
  AttachedRow, Table, uploaded, recovering, in_progress, same_status, IngestionWatchdog,
  select_stale, lease,
}
use agentic_substrate.UseCases.Watchdog.Leases.{
  Written, done, kept, rewritten, deleted, lease_once, InOrder, select_stale_sound,
}
use agentic_substrate.Tests.Documents.{loaded, first_store, loaded-IsStored}
use agentic_substrate.Tests.Runs.{unary, count_unary}

program : Unit {0}
unfolding create mark_events_as_committed save get_by_id is_deleted get_value select_stale lease
    in_progress
program = tt

abbrev some_kb : KnowledgeBaseAggregate
some_kb = record {
  id = 1;
  state = record initial { storage_partition = "kb-1" };
  version = 1;
  uncommitted = [];
}

-- The graph is the list of the documents that it has lost.
abbrev Graph : Type 0
Graph = List ℕ

abbrev lose : ℕ → ℕ → Graph → Graph
lose kb_id document_id graph = document_id ∷ graph

abbrev some_world : World Graph
some_world = record {
  store = first_store;
  knowledge_bases = λ j. some some_kb;
  objects = (codes "kb-1/raw/xxxxx-page.png", 1 ∷ 2 ∷ []) ∷ (codes "kb-1/raw/x.png", 3 ∷ []) ∷ [];
  graph = [];
  published = [];
}

abbrev upload : AttachAndStoreDocumentRequest
upload = record {
  kb_id = 1;
  file_name = "scans/page.png";
  content_type = "image/png";
  file_content = 1 ∷ 2 ∷ 3 ∷ [];
  enable_ocr = true;
  ocr_instructions = none;
  source_metadata = [];
}

abbrev upload_attempt : Attempt
upload_attempt = record { document_id = 9; now = 50; storage_error = none }

stream_free : first_store.streams 9 ≡ []
unfolding program
stream_free = refl

attach_and_store-IsAttached_example :
    IsAttached unary some_world upload_attempt upload
      (attach_and_store unary some_world upload_attempt upload)
attach_and_store-IsAttached_example =
    attach_and_store-IsAttached unary some_world upload_attempt upload some_kb refl refl stream_free

loaded_found : get_by_id first_store 5 ≡ some loaded
unfolding program
loaded_found = loaded-IsStored.found

loaded_id : loaded.id ≡ 5
unfolding program
loaded_id = refl

loaded_live : is_deleted loaded.state.status ≡ false
unfolding program
loaded_live = refl

reprocess-IsRestarted_example :
    IsRestarted unary some_world 60
      (record { kb_id = 1; document_id = 5 })
      none
      loaded
      (reprocess_document unary some_world 60 (record { kb_id = 1; document_id = 5 }) none)
reprocess-IsRestarted_example =
    reprocess-IsRestarted unary some_world 60 (record { kb_id = 1; document_id = 5 }) none some_kb
      loaded refl loaded_found loaded-IsStored loaded_live

-- The table still has a row of the document that is deleted.
abbrev left_row : DocumentRow
left_row = record { file_name = "page.png"; storage_path = "kb-1/raw/page.png" }

deleted_not_reprocessed_example :
    (is_ok
        (reprocess_document unary
          (after_deletion unary lose true some_world (record { kb_id = 1; document_id = 5 }))
          60
          (record { kb_id = 1; document_id = 5 })
          (some left_row)).0
      ≡ false)
    × ((reprocess_document unary
          (after_deletion unary lose true some_world (record { kb_id = 1; document_id = 5 }))
          60
          (record { kb_id = 1; document_id = 5 })
          (some left_row)).1
        ≡ after_deletion unary lose true some_world (record { kb_id = 1; document_id = 5 }))
deleted_not_reprocessed_example =
    deleted_not_reprocessed unary lose true some_world (record { kb_id = 1; document_id = 5 }) 60
      (some left_row) some_kb loaded refl loaded_found loaded_id loaded-IsStored

delete_document-IsDeleted_example :
    ((delete_by_request unary lose true some_world (record { kb_id = 1; document_id = 5 })).0
      ≡ ok 5)
    × IsDeleted unary lose true some_world
        (record { kb_id = 1; document_id = 5 })
        some_kb
        (delete_by_request unary lose true some_world (record { kb_id = 1; document_id = 5 })).1
delete_document-IsDeleted_example =
    delete_document-IsDeleted unary lose true some_world (record { kb_id = 1; document_id = 5 })
      some_kb loaded refl loaded_found loaded_id loaded-IsStored

-- Document 9 takes the place of document 5, written in unary; the metadata name the knowledge base.
abbrev indexed : KnowledgeIndexed
indexed = record { document_id = 9; indexed_nodes_count = 3; indexed_edges_count = 2; kb_id = none }

abbrev indexing : Event Payload
indexing = record {
  aggregate_id = 9;
  aggregate_type = "DocumentAggregate";
  event_version = 6;
  metadata = ("replaces_doc_id", str "xxxxx") ∷ ("kb_id", str "x") ∷ [];
  payload = knowledge_indexed indexed;
}

replaces_five : get_value "replaces_doc_id" indexing.metadata ≡ str "xxxxx"
unfolding program
replaces_five = refl

five : unary.parse "xxxxx" ≡ some 5
unfolding program unary count_unary
five = refl

kb_one : Names unary indexing indexed 1
unfolding program unary count_unary
kb_one = in_metadata {text = "x"} refl refl refl refl

swap-IsDeleted_example :
    ((handle_swap unary lose true some_world indexing).0 ≡ false)
    × IsDeleted unary lose true some_world
        (record { kb_id = 1; document_id = 5 })
        some_kb
        (handle_swap unary lose true some_world indexing).1
    × ((other : ℕ)
        → (other == 5) ≡ false
        → get_by_id (handle_swap unary lose true some_world indexing).1.store other
          ≡ get_by_id some_world.store other)
swap-IsDeleted_example =
    swap-IsDeleted unary lose true some_world indexing indexed "xxxxx" 5 1 some_kb loaded refl
      replaces_five refl five kb_one refl loaded_found loaded_id loaded-IsStored

abbrev stale_row : AttachedRow
stale_row = record {
  id = 5;
  kb_id = 1;
  status = uploaded;
  updated_at = 10;
  recovery_attempt = 2;
  error_step = none;
  error_message = none;
}

abbrev some_rows : Table
some_rows =
    stale_row
    ∷ record stale_row { id = 6; status = recovering }
    ∷ record stale_row { id = 7; updated_at = 3 }
    ∷ []

abbrev some_watchdog : IngestionWatchdog
some_watchdog = record { max_attempts = 3; threshold = 600 }

selected_rows :
    select_stale some_watchdog 1000 some_rows
    ≡ record stale_row { id = 7; updated_at = 3 } ∷ stale_row ∷ []
unfolding program
selected_rows = refl

stale_row_leased : (lease 1000 stale_row some_rows).0 ≡ true
unfolding program
stale_row_leased = refl

stale_row_in_progress : in_progress stale_row.status ≡ true
unfolding program
stale_row_in_progress = refl

-- The document 5 is uploaded again after its recovery, and the row of document 7 is deleted.
abbrev again : AttachedRow
again = record stale_row { recovery_attempt = 3; updated_at = 1005 }

abbrev rows_after : Table
rows_after = again ∷ record stale_row { id = 6; status = recovering } ∷ []

rows_after-Written : Written stale_row.updated_at (lease 1000 stale_row some_rows).1 rows_after
unfolding program
rows_after-Written = rewritten _ again (omega arith) (kept _ (deleted _ done))

lease_once_example : (lease 1010 stale_row rows_after).0 ≡ false
lease_once_example =
    lease_once 1000 1010 stale_row some_rows stale_row_in_progress rows_after-Written

select_stale_sound_example :
    (length (select_stale some_watchdog 1000 some_rows) ≤ 50)
    × InOrder some_watchdog 1000 (select_stale some_watchdog 1000 some_rows)
    × All
        (λ r.
          (in_progress r.status ≡ true)
          × (r.updated_at + some_watchdog.threshold < 1000)
          × (r.recovery_attempt < some_watchdog.max_attempts)
          × (same_status recovering r.status ≡ false))
        (select_stale some_watchdog 1000 some_rows)
select_stale_sound_example = select_stale_sound some_watchdog 1000 some_rows
