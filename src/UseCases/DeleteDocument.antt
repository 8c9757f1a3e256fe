-- ===== src/UseCases/DeleteDocument.antt =====
-- src/modules/knowledge/application/use_cases/delete_document, with a repository of documents.
pub mod Results
use Prim.Native.String.{◌++◌ as append}
use agentic_substrate.Prelude.{
  ℕ, Bool, true, false, Option, none, some, List, [], ◌∷◌, ◌++◌, String, str_eq, ◌==◌,
  if◌then◌else◌,
}
use agentic_substrate.Text.{codes}
use agentic_substrate.Kernel.Result.{Result, ok, err, DomainError}
use agentic_substrate.Kernel.Event.{Event}
use agentic_substrate.Events.{Payload, document_deleted}
use agentic_substrate.Document.State.{DocumentAggregate}
use agentic_substrate.Document.Commands.{delete, execute}
use agentic_substrate.Document.Repository.{get_by_id}
use agentic_substrate.KnowledgeBase.State.{DocumentEntry, get_document, KnowledgeBaseAggregate}
use agentic_substrate.KnowledgeBase.Commands.{partition_of}
use agentic_substrate.Storage.{Objects, delete_prefix}
use agentic_substrate.Run.Projector.{UuidText}
use agentic_substrate.UseCases.World.{World, not_found, save_document, reply, delete_document}

pub record DeleteDocumentRequest : Type 0 where
  pub kb_id : ℕ
  pub document_id : ℕ

unfoldable pub prefix_in : String → (partition directory : String) → String
prefix_in document_id partition directory =
    append partition (append "/" (append directory (append "/" document_id)))

abbrev pub clean_prefix : String → String → String → Objects → Objects
clean_prefix document_id partition directory objects =
    delete_prefix (codes (prefix_in document_id partition directory)) objects

unfoldable pub clean_objects : (document_id partition : String) → Objects → Objects
unfolding prefix_in delete_prefix
clean_objects document_id partition objects = clean_prefix document_id partition "checkpoints" (
    clean_prefix document_id partition "processed"
      (clean_prefix document_id partition "raw" objects))

unfoldable pub partition_for : UuidText → KnowledgeBaseAggregate → ℕ → String
unfolding partition_of
partition_for uuid kb kb_id =
    if str_eq kb.state.storage_partition ""
    then partition_of uuid.show kb_id
    else kb.state.storage_partition

-- `delete_subgraph` stands for `delete_document_subgraph` of the graph store, and `has_bus` tells
-- that there is an event bus.
module _ {Graph : Type 0} (uuid : UuidText) (delete_subgraph : ℕ → ℕ → Graph → Graph)
    (has_bus : Bool) where
  unfoldable pub clean_up :
      World Graph → KnowledgeBaseAggregate → DeleteDocumentRequest → World Graph
  unfolding clean_objects partition_for
  clean_up w kb request = record w {
    objects =
        clean_objects (uuid.show request.document_id) (partition_for uuid kb request.kb_id)
          w.objects;
    graph = delete_subgraph request.kb_id request.document_id w.graph;
  }

  unfoldable pub announce_deletion : World Graph → DeleteDocumentRequest → World Graph
  announce_deletion w request =
      if has_bus
      then record w {
        published =
            w.published
            ++ record {
              aggregate_id = request.document_id;
              aggregate_type = "DocumentAggregate";
              event_version = 1;
              metadata = [];
              payload =
                  document_deleted
                    (record { document_id = request.document_id; kb_id = some request.kb_id });
            }
              ∷ [];
      }
      else w

  abbrev pub finish :
      DeleteDocumentRequest
      → Result (Unit {0}) DomainError × World Graph
      → Result ℕ DomainError × World Graph
  finish request (ok u, w) =
      (ok request.document_id, delete_document w request.kb_id request.document_id)
  finish request (err e, w) = (err e, w)

  abbrev pub missing_document :
      World Graph → DeleteDocumentRequest → Result ℕ DomainError × World Graph
  missing_document w request = (
    err (
        not_found "Document " (uuid.show request.document_id)
          (append " in Knowledge Base " (uuid.show request.kb_id))),
    w,
  )

  abbrev pub delete_found :
      World Graph
      → DeleteDocumentRequest
      → KnowledgeBaseAggregate
      → Option DocumentAggregate
      → Option DocumentEntry
      → Result ℕ DomainError × World Graph
  delete_found w request kb (some d) entry =
      finish request (save_document (clean_up w kb request) (execute d delete))
  delete_found w request kb none (some entry) =
      finish request (ok tt, announce_deletion (clean_up w kb request) request)
  delete_found w request kb none none = missing_document w request

  abbrev pub delete_in :
      World Graph
      → DeleteDocumentRequest
      → Option KnowledgeBaseAggregate
      → Result ℕ DomainError × World Graph
  delete_in w request none = (err (not_found "Knowledge Base " (uuid.show request.kb_id) ""), w)
  delete_in w request (some kb) =
      delete_found w request kb (get_by_id w.store request.document_id)
        (get_document request.document_id kb.state.documents)

  -- `execute`
  unfoldable pub delete_by_request :
      World Graph → DeleteDocumentRequest → Result ℕ DomainError × World Graph
  unfolding get_by_id get_document clean_up announce_deletion save_document execute delete_document
  delete_by_request w request = delete_in w request (w.knowledge_bases request.kb_id)
