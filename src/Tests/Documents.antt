-- ===== src/Tests/Documents.antt =====
-- Tests of documents and their repository.
use agentic_substrate.Prelude.{◌<◌, ◌≡◌, refl, false, none, some, List, [], ◌∷◌, length, arith}
use agentic_substrate.Kernel.Result.{ok, err}
use agentic_substrate.Kernel.Aggregate.{mark_events_as_committed, record_event}
use agentic_substrate.Kernel.EventStore.{EventStore, number_from, concurrency_conflict}
use agentic_substrate.Text.{codes}
use agentic_substrate.SourceTypes.{infer}
use agentic_substrate.Events.{Payload, deleted, image, audio, document}
use agentic_substrate.Document.State.{DocumentAggregate}
use agentic_substrate.Document.Commands.{
  CreateArguments, Command, create, execute, execute_all, mark_stored, mark_parsed,
  mark_processing_failed, delete,
}
use agentic_substrate.Document.Lifecycle.{
  SameIdentity, IsConsistent, calls_after_delete, lifecycle_keeps,
}
use agentic_substrate.Document.Repository.{Saved, save, get_by_id}
use agentic_substrate.Document.Repository.RoundTrip.{
  IsSynced, create-IsSynced, execute-IsSynced, save-get_by_id, appended,
}
use agentic_substrate.Document.Repository.Sessions.{
  IsStored, store_after, save-IsStored, sessions, in_memory, sessions_lem,
}
use agentic_substrate.Document.Repository.Conflicts.{save-eq-conflict}

infer_image : infer (codes "scans/page.PNG") (codes "") ≡ image
unfolding infer
infer_image = refl

infer_audio : infer (codes "voice.bin") (codes " Audio/ogg ") ≡ audio
unfolding infer
infer_audio = refl

infer_hidden : infer (codes ".png") (codes "application/unknown") ≡ document
unfolding infer
infer_hidden = refl

abbrev pub empty_store : EventStore Payload
empty_store = record { streams = λ id. [] }

abbrev pub arguments : CreateArguments
arguments = record {
  document_id = 5;
  kb_id = 1;
  file_name = "contract.pdf";
  content_type = "application/pdf";
  storage_path = "kb-1/raw/5-contract.pdf";
  enable_ocr = false;
  ocr_instructions = none;
  source_type = some document;
  ingested_at = none;
  metadata = none;
}

abbrev pub attached : DocumentAggregate
attached = create 7 arguments

attached-IsSynced : IsSynced empty_store attached
attached-IsSynced = create-IsSynced empty_store 7 arguments refl

attached_recorded : 0 < attached.version
unfolding create
attached_recorded = omega arith

save-get_by_id_example :
    (r : Saved) × (save empty_store attached ≡ ok r)
    × (r.aggregate ≡ mark_events_as_committed attached)
    × (r.published ≡ number_from (length (empty_store.streams attached.id)) attached.uncommitted)
    × (get_by_id r.store attached.id ≡ some (mark_events_as_committed attached))
    × (r.store.streams attached.id ≡ appended empty_store attached)
save-get_by_id_example = save-get_by_id empty_store attached attached-IsSynced attached_recorded

abbrev pub first_store : EventStore Payload
first_store = store_after empty_store (save empty_store attached)

abbrev pub loaded : DocumentAggregate
loaded = mark_events_as_committed attached

pub loaded-IsStored : IsStored first_store loaded
loaded-IsStored = save-IsStored empty_store attached attached-IsSynced attached_recorded

abbrev calls : List (List Command)
calls =
    (mark_stored "kb-1/raw/5-contract.pdf" 900 ∷ [])
    ∷ (mark_processing_failed "PARSE_MARKDOWN" "timeout" none ∷ [])
    ∷ (mark_stored "kb-1/raw/5-contract.pdf" 900 ∷ mark_parsed "kb-1/markdown/5.md" "# A" ∷ [])
    ∷ []

sessions_lem_example :
    get_by_id (sessions first_store loaded.id calls) loaded.id ≡ some (in_memory loaded calls)
sessions_lem_example = sessions_lem first_store loaded calls loaded-IsStored

abbrev parsed_copy : DocumentAggregate
parsed_copy = execute loaded (mark_parsed "kb-1/markdown/5.md" "# A")

abbrev deleted_copy : DocumentAggregate
deleted_copy = execute loaded delete

program : Unit {0}
unfolding create execute mark_events_as_committed record_event save
program = tt

copies_same : parsed_copy.id ≡ deleted_copy.id
unfolding program
copies_same = refl

parsed_copy_pending : 0 < length parsed_copy.uncommitted
unfolding program
parsed_copy_pending = omega arith

deleted_copy_pending : 0 < length deleted_copy.uncommitted
unfolding program
deleted_copy_pending = omega arith

abbrev parsed_saved : Saved
parsed_saved = record {
  store = store_after first_store (save first_store parsed_copy);
  aggregate = mark_events_as_committed parsed_copy;
  published = number_from 1 parsed_copy.uncommitted;
}

parsed_saved_lem : save first_store parsed_copy ≡ ok parsed_saved
unfolding program number_from
parsed_saved_lem = refl

save-eq-conflict_example : save parsed_saved.store deleted_copy ≡ err concurrency_conflict
save-eq-conflict_example =
    save-eq-conflict first_store parsed_copy deleted_copy parsed_saved
      (execute-IsSynced first_store loaded (mark_parsed "kb-1/markdown/5.md" "# A")
        loaded-IsStored.synced)
      (execute-IsSynced first_store loaded delete loaded-IsStored.synced) copies_same
      parsed_copy_pending deleted_copy_pending parsed_saved_lem

calls_after_delete_example :
    ((execute_all loaded
        (mark_parsed "x.md" "x" ∷ delete ∷ mark_parsed "y.md" "y" ∷ [])).state.status
      ≡ deleted)
    × (execute_all loaded (mark_parsed "x.md" "x" ∷ delete ∷ mark_parsed "y.md" "y" ∷ [])
        ≡ execute (execute_all loaded (mark_parsed "x.md" "x" ∷ [])) delete)
calls_after_delete_example =
    calls_after_delete loaded (mark_parsed "x.md" "x" ∷ []) (mark_parsed "y.md" "y" ∷ [])

abbrev failing : List Command
failing = mark_stored "p" 1 ∷ mark_processing_failed "INDEXING" "no store" none ∷ []

lifecycle_keeps_example :
    SameIdentity (execute_all (create 7 arguments) failing).state (create 7 arguments).state
    × IsConsistent (execute_all (create 7 arguments) failing).state
lifecycle_keeps_example = lifecycle_keeps 7 arguments failing
