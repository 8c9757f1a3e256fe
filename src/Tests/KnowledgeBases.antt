-- ===== src/Tests/KnowledgeBases.antt =====
-- Tests of knowledge bases.
use agentic_substrate.Prelude.{
  ◌+◌, ◌≡◌, true, false, none, List, [], ◌∷◌, foldl, length, ◌==◌, if◌then◌else◌,
}
use agentic_substrate.Kernel.Event.{Event}
use agentic_substrate.Events.{
  document, DocumentAttached, DocumentStored, ProcessingFailed, OntologySchema, Payload,
  document_attached, document_stored, processing_failed,
}
use agentic_substrate.Document.State.{initial as initial_document}
use agentic_substrate.KnowledgeBase.State.{
  get_document, initial, KnowledgeBaseAggregate, apply_event,
}
use agentic_substrate.KnowledgeBase.Commands.{
  create, AttachArguments, attach_document, remove_document, event_of, execute, execute_all,
}
use agentic_substrate.KnowledgeBase.Entries.{unseen, see, expected, follow}
use agentic_substrate.KnowledgeBase.Agreement.{agreement}
use agentic_substrate.KnowledgeBase.Removal.{held, remove_document_lem}
use agentic_substrate.Tests.Runs.{unary}

abbrev was_attached : DocumentAttached
was_attached = record {
  document_id = 5;
  file_name = "contract.pdf";
  content_type = "application/pdf";
  storage_path = "kb-x/raw/5-contract.pdf";
  kb_id = none;
  source_type = document;
  ingested_at = 100;
  enable_ocr = false;
  ocr_instructions = none;
}

abbrev was_stored : DocumentStored
was_stored = record {
  document_id = 5;
  storage_path = "kb-x/raw/5-contract.pdf";
  byte_size = 900;
  kb_id = none;
}

abbrev had_failed : ProcessingFailed
had_failed = record { document_id = 5; step = "PARSE"; error_message = "timeout"; kb_id = none }

abbrev some_events : List (Event Payload)
some_events =
    event_of 1 [] (document_attached was_attached)
    ∷ event_of 1 [] (document_attached (record was_attached { document_id = 6 }))
    ∷ event_of 1 [] (document_stored was_stored)
    ∷ event_of 1 [] (processing_failed had_failed)
    ∷ []

agreement_example :
    get_document 5 (foldl apply_event initial some_events).documents
    ≡ expected 5
        (record unseen { attached = true; stored = true; failed = true })
        (foldl (follow 5) initial_document some_events)
unfolding see event_of
agreement_example = agreement 5 some_events

abbrev some_ontology : OntologySchema
some_ontology = record { name = "law"; description = "" }

abbrev some_knowledge_base : KnowledgeBaseAggregate
some_knowledge_base = create unary.show 3 "contracts" "" some_ontology

abbrev some_attachment : AttachArguments
some_attachment = record {
  document_id = 5;
  file_name = "contract.pdf";
  content_type = "application/pdf";
  enable_ocr = false;
  ocr_instructions = none;
  source_type = none;
  ingested_at = none;
  metadata = none;
}

abbrev with_document : KnowledgeBaseAggregate
with_document =
    execute_all unary.show some_knowledge_base (attach_document 100 some_attachment ∷ [])

remove_document_lem_example :
    (get_document 5 (execute unary.show with_document (remove_document 5)).state.documents
      ≡ (if 5 == 5 then none else get_document 5 with_document.state.documents))
    × (length (execute unary.show with_document (remove_document 5)).uncommitted ≡ (
        if held unary.show (get_document 5 with_document.state.documents)
        then length with_document.uncommitted + 1
        else length with_document.uncommitted))
remove_document_lem_example = remove_document_lem unary.show with_document 5 5
