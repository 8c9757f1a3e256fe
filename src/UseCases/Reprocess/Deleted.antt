-- ===== src/UseCases/Reprocess/Deleted.antt =====
-- The reprocessing of a document that has been deleted.
use agentic_substrate.Prelude.{ℕ, ◌≡◌, refl, Bool, true, false, Option, none, some}
use agentic_substrate.Kernel.Result.{is_ok}
use agentic_substrate.Document.State.{DocumentAggregate}
use agentic_substrate.Document.Commands.{is_deleted}
use agentic_substrate.Document.Repository.{get_by_id}
use agentic_substrate.Document.Repository.Sessions.{IsStored}
use agentic_substrate.KnowledgeBase.State.{KnowledgeBaseAggregate}
use agentic_substrate.Run.Projector.{UuidText}
use agentic_substrate.UseCases.World.{World}
use agentic_substrate.UseCases.DeleteDocument.{delete_by_request}
use agentic_substrate.UseCases.DeleteDocument.Results.{delete_document-IsDeleted}
use agentic_substrate.UseCases.Reprocess.{ReprocessDocumentRequest, DocumentRow, reprocess_document}
use agentic_substrate.UseCases.Reprocess.Results.{refused_for, reprocess-refused}

deleted-refused :
    (o : Option KnowledgeBaseAggregate) (d : DocumentAggregate) (row : Option DocumentRow)
    → is_deleted d.state.status ≡ true
    → refused_for o (some d) row ≡ true
deleted-refused none d row gone = refl
deleted-refused (some kb) d row gone = gone

module _ {Graph : Type 0} (uuid : UuidText) (delete_subgraph : ℕ → ℕ → Graph → Graph)
    (has_bus : Bool) (w : World Graph) (request : ReprocessDocumentRequest) where
  -- The world after the document of the request has been deleted from its knowledge base.
  abbrev pub after_deletion : World Graph
  after_deletion =
      (delete_by_request uuid delete_subgraph has_bus w
        (record { kb_id = request.kb_id; document_id = request.document_id })).1

  -- A stored document that has been deleted is not processed again, whatever row the table still has
  -- of it: the answer is an error, and the world is the one that the deletion left.
  pub deleted_not_reprocessed :
      (now : ℕ) (row : Option DocumentRow) (kb : KnowledgeBaseAggregate) (d : DocumentAggregate)
      → w.knowledge_bases request.kb_id ≡ some kb
      → get_by_id w.store request.document_id ≡ some d
      → d.id ≡ request.document_id
      → IsStored w.store d
      → (is_ok (reprocess_document uuid after_deletion now request row).0 ≡ false)
        × ((reprocess_document uuid after_deletion now request row).1 ≡ after_deletion)
  deleted_not_reprocessed now row kb d found loaded same h =
      let gone =
        (delete_document-IsDeleted uuid delete_subgraph has_bus w
          (record { kb_id = request.kb_id; document_id = request.document_id }) kb d found loaded
          same h).1 in
      reprocess-refused uuid after_deletion now request row (some gone.document) gone.loaded (
        deleted-refused (after_deletion.knowledge_bases request.kb_id) gone.document row
          gone.status)
