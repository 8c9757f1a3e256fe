-- ===== src/UseCases/DeleteDocument/Results.antt =====
-- What the deletion of a stored document does.
use agentic_substrate.Prelude.{
  ℕ, ◌≡◌, refl, ◌∙◌, ap, sym, subst, Bool, true, false, Option, none, some, Bool-cases, inl, inr,
  ==_refl, ◌==◌, String,
}
use agentic_substrate.Text.{Text, codes, starts_with}
use agentic_substrate.Kernel.Result.{Result, ok, err, DomainError}
use agentic_substrate.Kernel.EventStore.{get_events}
use agentic_substrate.Kernel.Aggregate.{mark_events_as_committed, record_event}
use agentic_substrate.Document.State.{DocumentAggregate, apply_event}
use agentic_substrate.Document.Commands.{delete, execute, event_for, is_deleted}
use agentic_substrate.Document.Repository.{rebuild, get_by_id}
use agentic_substrate.Document.Repository.Sessions.{IsStored, execute_id}
use agentic_substrate.KnowledgeBase.State.{get_document, DocumentEntry, KnowledgeBaseAggregate}
use agentic_substrate.KnowledgeBase.Lookup.{get-pop}
use agentic_substrate.Storage.{Objects, get_object}
use agentic_substrate.Storage.Prefixes.{
  delete_prefix-keeps, IsCleared, delete_prefix-cleared, delete_prefix-none,
  delete_prefix-IsCleared,
}
use agentic_substrate.Run.Projector.{UuidText}
use agentic_substrate.UseCases.World.{World, save_document, without_document, delete_document}
use agentic_substrate.UseCases.Saving.{save_executed, save_document-others}
use agentic_substrate.UseCases.DeleteDocument.{
  DeleteDocumentRequest, prefix_in, clean_objects, partition_for, clean_up, finish, delete_found,
  delete_in, delete_by_request,
}

-- The path does not begin with one of the three prefixes of the document.
pub record IsApart (document_id partition : String) (path : Text) : Type 0 where
  pub raw : starts_with path (codes (prefix_in document_id partition "raw")) ≡ false
  pub processed : starts_with path (codes (prefix_in document_id partition "processed")) ≡ false
  pub checkpoints : starts_with path (codes (prefix_in document_id partition "checkpoints")) ≡ false

clean_objects-keeps :
    (document_id partition : String) (path : Text) (objects : Objects)
    → IsApart document_id partition path
    → get_object path (clean_objects document_id partition objects) ≡ get_object path objects
unfolding clean_objects
clean_objects-keeps document_id partition path objects apart =
    delete_prefix-keeps _ path _ apart.checkpoints
    ∙ delete_prefix-keeps _ path _ apart.processed
    ∙ delete_prefix-keeps _ path objects apart.raw

-- The three directories that have objects of a document.
pub data Directory : Type 0 where
  raw processed checkpoints : Directory

abbrev pub directory_name : Directory → String
directory_name Directory.raw = "raw"
directory_name Directory.processed = "processed"
directory_name Directory.checkpoints = "checkpoints"

clean_objects-gone :
    (document_id partition : String) (path : Text) (objects : Objects) (directory : Directory)
    → IsCleared (codes (prefix_in document_id partition (directory_name directory))) objects path
    → get_object path (clean_objects document_id partition objects) ≡ none
unfolding clean_objects
clean_objects-gone document_id partition path objects Directory.raw h =
    delete_prefix-none _ path _
      (delete_prefix-none _ path _ (delete_prefix-cleared _ path objects h))
clean_objects-gone document_id partition path objects Directory.processed h =
    delete_prefix-none _ path _
      (delete_prefix-cleared _ path _ (delete_prefix-IsCleared _ _ path objects h))
clean_objects-gone document_id partition path objects Directory.checkpoints h =
    delete_prefix-cleared _ path _
      (delete_prefix-IsCleared _ _ path _ (delete_prefix-IsCleared _ _ path objects h))

-- Whatever it was before, a document is deleted after its deletion.
delete-is_deleted : (d : DocumentAggregate) → is_deleted (execute d delete).state.status ≡ true
unfolding execute record_event apply_event event_for is_deleted
delete-is_deleted d = elim (Bool-cases (is_deleted d.state.status)) [
  | inl gone ↦ rw gone gone
  | inr live ↦ rw live refl
]

abbrev pub entry_in : Option KnowledgeBaseAggregate → ℕ → Option DocumentEntry
entry_in none d = none
entry_in (some kb) d = get_document d kb.state.documents

without_document-entry :
    (o : Option KnowledgeBaseAggregate) (d : ℕ) → entry_in (without_document d o) d ≡ none
without_document-entry none d = refl
without_document-entry (some kb) d = get-pop d d kb.state.documents ∙ rw (==_refl d) refl

module _ {Graph : Type 0} (uuid : UuidText) (delete_subgraph : ℕ → ℕ → Graph → Graph)
    (has_bus : Bool) where
  module _ (w : World Graph) (request : DeleteDocumentRequest) where
    pub record IsDeleted (kb : KnowledgeBaseAggregate) (after : World Graph) : Type 0 where
      pub document : DocumentAggregate
      pub loaded : get_by_id after.store request.document_id ≡ some document
      pub status : is_deleted document.state.status ≡ true
      pub entry : entry_in (after.knowledge_bases request.kb_id) request.document_id ≡ none
      pub graph : after.graph ≡ delete_subgraph request.kb_id request.document_id w.graph
      pub kept :
          (path : Text)
          → IsApart (uuid.show request.document_id) (partition_for uuid kb request.kb_id) path
          → get_object path after.objects ≡ get_object path w.objects
      pub gone :
          (path : Text) (directory : Directory)
          → IsCleared
              (codes (
                prefix_in
                  (uuid.show request.document_id)
                  (partition_for uuid kb request.kb_id)
                  (directory_name directory)))
              w.objects
              path
          → get_object path after.objects ≡ none

    finish-IsDeleted :
        (kb : KnowledgeBaseAggregate) (d : DocumentAggregate) (w' : World Graph)
        → get_by_id w'.store request.document_id
          ≡ some (mark_events_as_committed (execute d delete))
        → w'.objects ≡ (clean_up uuid delete_subgraph has_bus w kb request).objects
        → w'.graph ≡ (clean_up uuid delete_subgraph has_bus w kb request).graph
        → IsDeleted kb (delete_document w' request.kb_id request.document_id)
    unfolding delete_document clean_up mark_events_as_committed
    finish-IsDeleted kb d w' loaded objects graph = record {
      document = mark_events_as_committed (execute d delete);
      loaded = loaded;
      status = delete-is_deleted d;
      entry =
          rw (==_refl request.kb_id)
            (without_document-entry (w'.knowledge_bases request.kb_id) request.document_id);
      graph = graph;
      kept = λ path apart.
          ap (get_object path) objects
          ∙ clean_objects-keeps (uuid.show request.document_id)
              (partition_for uuid kb request.kb_id) path w.objects apart;
      gone = λ path directory cleared.
          ap (get_object path) objects
          ∙ clean_objects-gone (uuid.show request.document_id) (partition_for uuid kb request.kb_id)
              path w.objects directory cleared;
    }

    -- A stored document is deleted: the answer names it, it can only be loaded as a deleted document,
    -- the knowledge base has no entry of it, its part of the graph is deleted, and all objects whose
    -- paths do not begin with its three prefixes are as before. Objects whose path is one of
    -- these prefixes or below it are gone; if there are none such, those whose path begins with it are.
    pub delete_document-IsDeleted :
        (kb : KnowledgeBaseAggregate) (d : DocumentAggregate)
        → w.knowledge_bases request.kb_id ≡ some kb
        → get_by_id w.store request.document_id ≡ some d
        → d.id ≡ request.document_id
        → IsStored w.store d
        → ((delete_by_request uuid delete_subgraph has_bus w request).0 ≡ ok request.document_id)
          × IsDeleted kb (delete_by_request uuid delete_subgraph has_bus w request).1
    unfolding delete_by_request
    delete_document-IsDeleted kb d found loaded same h =
        let cleaned = clean_up uuid delete_subgraph has_bus w kb request in
        let (w', saved, stored, objects, kbs, graph) =
          save_executed cleaned d delete (unfold clean_up in h) in
        let ran =
          ap (delete_in uuid delete_subgraph has_bus w request) found
          ∙ ap
              (λ o.
                delete_found uuid delete_subgraph has_bus w request kb o
                  (get_document request.document_id kb.state.documents))
              loaded
          ∙ ap (finish uuid delete_subgraph has_bus request) saved in
        subst (λ after. (after.0 ≡ ok request.document_id) × IsDeleted kb after.1) (sym ran)
          (
            refl,
            finish-IsDeleted kb d w'
                (subst
                  (λ i. get_by_id w'.store i ≡ some (mark_events_as_committed (execute d delete)))
                  same stored)
                objects graph,
          )

    finish-store :
        (r : Result (Unit {0}) DomainError × World Graph)
        → (finish uuid delete_subgraph has_bus request r).1.store ≡ r.1.store
    unfolding delete_document
    finish-store (ok u, w') = refl
    finish-store (err e, w') = refl

    -- The deletion of a stored document leaves the other documents as they are.
    pub delete_document-others :
        (kb : KnowledgeBaseAggregate) (d : DocumentAggregate) (other : ℕ)
        → w.knowledge_bases request.kb_id ≡ some kb
        → get_by_id w.store request.document_id ≡ some d
        → d.id ≡ request.document_id
        → (other == request.document_id) ≡ false
        → get_by_id (delete_by_request uuid delete_subgraph has_bus w request).1.store other
          ≡ get_by_id w.store other
    unfolding delete_by_request get_by_id get_events clean_up
    delete_document-others kb d other found loaded same h =
        let cleaned = clean_up uuid delete_subgraph has_bus w kb request in
        let deleted = execute d delete in
        let ran =
          ap (delete_in uuid delete_subgraph has_bus w request) found
          ∙ ap
              (λ o.
                delete_found uuid delete_subgraph has_bus w request kb o
                  (get_document request.document_id kb.state.documents))
              loaded in
        let apart : (other == deleted.id) ≡ false =
          ap (λ i. other == i) (execute_id d delete ∙ same) ∙ h in
        ap (λ after. rebuild other (after.1.store.streams other)) ran
        ∙ ap (λ s. rebuild other (s.streams other)) (finish-store (save_document cleaned deleted))
        ∙ ap (rebuild other) (save_document-others cleaned deleted other apart)
