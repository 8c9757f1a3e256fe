-- ===== src/UseCases/Reprocess.antt =====
-- src/modules/knowledge/application/use_cases/reprocess_document, with the row of the table
-- `attached_documents` as an argument.
pub mod Results
pub mod Deleted
use Prim.Native.String.{◌++◌ as append}
use agentic_substrate.Prelude.{
  ℕ, Bool, true, false, Option, none, some, List, [], ◌∷◌, String, ◌==◌, if◌then◌else◌,
}
use agentic_substrate.Text.{codes, ends_with}
use agentic_substrate.Kernel.Result.{Result, ok, err, DomainError}
use agentic_substrate.Document.State.{DocumentAggregate}
use agentic_substrate.Document.Commands.{create, is_deleted, mark_stored, execute}
use agentic_substrate.Document.Repository.{get_by_id}
use agentic_substrate.KnowledgeBase.State.{KnowledgeBaseAggregate}
use agentic_substrate.Run.Projector.{UuidText}
use agentic_substrate.UseCases.World.{World, not_found, save_document, reply}

pub record DocumentRow : Type 0 where
  pub file_name : String
  pub storage_path : String

pub record ReprocessDocumentRequest : Type 0 where
  pub kb_id : ℕ
  pub document_id : ℕ

unfoldable pub row_content_type : String → String
unfolding ends_with
row_content_type file_name =
    if ends_with (codes file_name) (codes ".docx")
    then "application/vnd.openxmlformats-officedocument.wordprocessingml.document"
    else if ends_with (codes file_name) (codes ".pdf")
    then "application/pdf"
    else "application/octet-stream"

-- The stored document, or else a new one that the row describes.
unfoldable pub found_or_created :
    ℕ
    → ReprocessDocumentRequest
    → Option DocumentRow
    → Option DocumentAggregate
    → Option DocumentAggregate
unfolding row_content_type create
found_or_created now request row (some d) = some d
found_or_created now request none none = none
found_or_created now request (some row) none = some (
    create now (record {
      document_id = request.document_id;
      kb_id = request.kb_id;
      file_name = row.file_name;
      content_type = row_content_type row.file_name;
      storage_path = row.storage_path;
      enable_ocr = false;
      ocr_instructions = none;
      source_type = none;
      ingested_at = none;
      metadata = none;
    }))

module _ {Graph : Type 0} (uuid : UuidText) where
  -- The response names the document; its status is `UPLOADED`.
  abbrev pub restart : World Graph → DocumentAggregate → Result ℕ DomainError × World Graph
  restart w d =
      reply d.id (save_document w (execute d (mark_stored d.state.storage_path d.state.byte_size)))

  abbrev pub reprocess_found :
      World Graph
      → ReprocessDocumentRequest
      → Option DocumentAggregate
      → Result ℕ DomainError × World Graph
  reprocess_found w request none =
      (err (not_found "Document " (uuid.show request.document_id) ""), w)
  reprocess_found w request (some d) =
      if is_deleted d.state.status
      then (
        err (record {
          message = append "Cannot reprocess deleted document " (uuid.show request.document_id);
          code = "INVALID_STATE";
        }),
        w,
      )
      else restart w d

  abbrev pub reprocess_in :
      World Graph
      → ℕ
      → ReprocessDocumentRequest
      → Option DocumentRow
      → Option KnowledgeBaseAggregate
      → Result ℕ DomainError × World Graph
  reprocess_in w now request row none =
      (err (not_found "Knowledge Base " (uuid.show request.kb_id) ""), w)
  reprocess_in w now request row (some kb) =
      reprocess_found w request
        (found_or_created now request row (get_by_id w.store request.document_id))

  -- `execute`
  unfoldable pub reprocess_document :
      World Graph
      → ℕ
      → ReprocessDocumentRequest
      → Option DocumentRow
      → Result ℕ DomainError × World Graph
  unfolding found_or_created get_by_id is_deleted execute save_document
  reprocess_document w now request row =
      reprocess_in w now request row (w.knowledge_bases request.kb_id)
