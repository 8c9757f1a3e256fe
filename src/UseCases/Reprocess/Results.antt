-- ===== src/UseCases/Reprocess/Results.antt =====
-- What the reprocessing of a stored document does.
use agentic_substrate.Prelude.{
  ℕ, ◌≡◌, refl, ◌∙◌, ap, sym, subst, Bool, true, false, Option, none, some, arith,
}
use agentic_substrate.Kernel.Result.{Result, ok, is_ok, DomainError}
use agentic_substrate.Kernel.Aggregate.{mark_events_as_committed, record_event}
use agentic_substrate.Events.{uploaded}
use agentic_substrate.Document.State.{DocumentAggregate, apply_event}
use agentic_substrate.Document.Commands.{mark_stored, execute, event_for, is_deleted}
use agentic_substrate.Document.Repository.{get_by_id}
use agentic_substrate.Document.Repository.Sessions.{IsStored}
use agentic_substrate.KnowledgeBase.State.{KnowledgeBaseAggregate}
use agentic_substrate.Run.Projector.{UuidText}
use agentic_substrate.UseCases.World.{World, reply}
use agentic_substrate.UseCases.Saving.{save_executed}
use agentic_substrate.UseCases.Reprocess.{
  ReprocessDocumentRequest, DocumentRow, found_or_created, restart, reprocess_found, reprocess_in,
  reprocess_document,
}

abbrev pub is_gone : Option DocumentAggregate → Option DocumentRow → Bool
is_gone (some d) row = is_deleted d.state.status
is_gone none (some row) = false
is_gone none none = true

-- When a document cannot be reprocessed.
abbrev pub refused_for :
    Option KnowledgeBaseAggregate → Option DocumentAggregate → Option DocumentRow → Bool
refused_for none d row = true
refused_for (some kb) d row = is_gone d row

module _ {Graph : Type 0} (uuid : UuidText) (w : World Graph) (now : ℕ)
    (request : ReprocessDocumentRequest) (row : Option DocumentRow) where
  pub record IsRestarted (d : DocumentAggregate) (after : Result ℕ DomainError × World Graph)
      : Type 0 where
    pub answer : after.0 ≡ ok d.id
    pub document : DocumentAggregate
    pub loaded : get_by_id after.1.store d.id ≡ some document
    pub status : document.state.status ≡ uploaded
    pub storage_path : document.state.storage_path ≡ d.state.storage_path
    pub byte_size : document.state.byte_size ≡ d.state.byte_size
    pub error_step : document.state.error_step ≡ none
    pub error_message : document.state.error_message ≡ none
    pub objects : after.1.objects ≡ w.objects

  restart-IsRestarted :
      (d : DocumentAggregate)
      → is_deleted d.state.status ≡ false
      → IsStored w.store d
      → IsRestarted d (restart uuid w d)
  unfolding execute mark_events_as_committed record_event apply_event event_for
  restart-IsRestarted d live h =
      let c = mark_stored d.state.storage_path d.state.byte_size in
      let (w', saved, loaded, objects, kbs, graph) = save_executed w d c h in
      subst (IsRestarted d) (sym (ap (reply d.id) saved)) (record {
        answer = refl;
        document = mark_events_as_committed (execute d c);
        loaded = loaded;
        status = rw live refl;
        storage_path = rw live refl;
        byte_size = rw live refl;
        error_step = rw live refl;
        error_message = rw live refl;
        objects = objects;
      })

  -- A stored document that is not deleted is uploaded again, under the same path, with the same size
  -- and without its error, and no object changes.
  pub reprocess-IsRestarted :
      (kb : KnowledgeBaseAggregate) (d : DocumentAggregate)
      → w.knowledge_bases request.kb_id ≡ some kb
      → get_by_id w.store request.document_id ≡ some d
      → IsStored w.store d
      → is_deleted d.state.status ≡ false
      → IsRestarted d (reprocess_document uuid w now request row)
  unfolding reprocess_document found_or_created
  reprocess-IsRestarted kb d found loaded h live =
      let ran =
        ap (reprocess_in uuid w now request row) found
        ∙ ap (λ o. reprocess_found uuid w request (found_or_created now request row o)) loaded in
      subst (IsRestarted d) (sym ran)
        (subst (IsRestarted d) (sym (live_branch d live)) (restart-IsRestarted d live h))
    where
      live_branch :
          (d : DocumentAggregate)
          → is_deleted d.state.status ≡ false
          → reprocess_found uuid w request (some d) ≡ restart uuid w d
      live_branch d live = rw live refl

  -- Without the knowledge base, without the document and a row of it, and for a deleted document, the
  -- answer is an error and nothing changes.
  pub reprocess-refused :
      (d : Option DocumentAggregate)
      → get_by_id w.store request.document_id ≡ d
      → refused_for (w.knowledge_bases request.kb_id) d row ≡ true
      → (is_ok (reprocess_document uuid w now request row).0 ≡ false)
        × ((reprocess_document uuid w now request row).1 ≡ w)
  unfolding reprocess_document found_or_created
  reprocess-refused d loaded refused = of_kb (w.knowledge_bases request.kb_id) refused
    where
      Refused : Result ℕ DomainError × World Graph → Type 0
      Refused after = (is_ok after.0 ≡ false) × (after.1 ≡ w)

      of_document :
          (o : Option DocumentAggregate) (r : Option DocumentRow)
          → is_gone o r ≡ true
          → Refused (reprocess_found uuid w request (found_or_created now request r o))
      of_document (some x) r gone = rw gone (refl, refl)
      of_document none none gone = (refl, refl)
      of_document none (some x) gone = ground arith

      of_kb :
          (k : Option KnowledgeBaseAggregate)
          → refused_for k d row ≡ true
          → Refused (reprocess_in uuid w now request row k)
      of_kb none e = (refl, refl)
      of_kb (some kb) e =
          subst (λ o. Refused (reprocess_found uuid w request (found_or_created now request row o)))
            (sym loaded) (of_document d row e)
