-- ===== src/UseCases/Attach/Stored.antt =====
-- What is kept of an attached document.
use agentic_substrate.Prelude.{◌<◌, ◌≡◌, refl, ◌∙◌, ap, sym, subst, none, some, [], length, arith}
use agentic_substrate.Text.{codes}
use agentic_substrate.Kernel.Result.{Result, ok, DomainError}
use agentic_substrate.Kernel.Aggregate.{mark_events_as_committed, record_event}
use agentic_substrate.Events.{uploaded}
use agentic_substrate.Document.State.{DocumentAggregate, apply_event}
use agentic_substrate.Document.Commands.{create, mark_stored, execute, event_for, is_deleted}
use agentic_substrate.Document.Repository.{get_by_id}
use agentic_substrate.Document.Repository.RoundTrip.{IsSynced, create-IsSynced, execute-IsSynced}
use agentic_substrate.KnowledgeBase.State.{KnowledgeBaseAggregate}
use agentic_substrate.Storage.{get_object}
use agentic_substrate.Storage.Prefixes.{get-put}
use agentic_substrate.Run.Projector.{UuidText}
use agentic_substrate.UseCases.World.{World, reply}
use agentic_substrate.UseCases.Saving.{save_document-get_by_id}
use agentic_substrate.UseCases.Attach.{
  AttachAndStoreDocumentRequest, AttachAndStoreDocumentResponse, Attempt, path_in, creation,
  response_of, new_upload, store_content, attach_to, attach_and_store,
}

module _ {Graph : Type 0} (uuid : UuidText) (w : World Graph) (at : Attempt)
    (request : AttachAndStoreDocumentRequest) where
  -- The document that the answer names can be loaded as an uploaded document of the knowledge base,
  -- with the size of the content, and its storage path holds the content.
  pub record IsAttached (after : Result AttachAndStoreDocumentResponse DomainError × World Graph)
      : Type 0 where
    pub response : AttachAndStoreDocumentResponse
    pub answer : after.0 ≡ ok response
    pub document : DocumentAggregate
    pub named : response.document_id ≡ at.document_id
    pub loaded : get_by_id after.1.store response.document_id ≡ some document
    pub status : document.state.status ≡ uploaded
    pub kb_id : document.state.kb_id ≡ some request.kb_id
    pub byte_size : document.state.byte_size ≡ length request.file_content
    pub storage_path : document.state.storage_path ≡ response.storage_path
    pub content :
        get_object (codes response.storage_path) after.1.objects ≡ some request.file_content

  module _ (kb : KnowledgeBaseAggregate) where
    new_upload-IsSynced :
        w.store.streams at.document_id ≡ [] → IsSynced w.store (new_upload uuid kb at request)
    unfolding new_upload
    new_upload-IsSynced fresh =
        execute-IsSynced w.store (create at.now (creation uuid kb at request))
          (mark_stored (path_in uuid kb at request) (length request.file_content))
          (create-IsSynced w.store at.now (creation uuid kb at request) fresh)

    saved-IsAttached :
        (w' : World Graph)
        → get_by_id w'.store at.document_id
          ≡ some (mark_events_as_committed (new_upload uuid kb at request))
        → w'.objects ≡ (store_content uuid w kb at request).objects
        → IsAttached (ok (response_of uuid kb at request), w')
    unfolding new_upload create execute event_for apply_event record_event mark_events_as_committed
        store_content is_deleted
    saved-IsAttached w' loaded same = record {
      response = response_of uuid kb at request;
      answer = refl;
      document = mark_events_as_committed (new_upload uuid kb at request);
      named = refl;
      loaded = loaded;
      status = refl;
      kb_id = refl;
      byte_size = refl;
      storage_path = refl;
      content =
          ap (get_object (codes (response_of uuid kb at request).storage_path)) same
          ∙ get-put (codes (response_of uuid kb at request).storage_path) request.file_content
              w.objects;
    }

    upload_version : 0 < (new_upload uuid kb at request).version
    unfolding new_upload create execute event_for apply_event record_event is_deleted
    upload_version = omega arith

    upload_id : (new_upload uuid kb at request).id ≡ at.document_id
    unfolding new_upload create execute event_for apply_event record_event is_deleted
    upload_id = refl

  -- With the knowledge base there, no error of the storage and an identifier that no stream has, a
  -- document is attached: the answer names it, it can be loaded as an uploaded document of that
  -- knowledge base, with the size of its content, and its storage path holds the content.
  pub attach_and_store-IsAttached :
      (kb : KnowledgeBaseAggregate)
      → w.knowledge_bases request.kb_id ≡ some kb
      → at.storage_error ≡ none
      → w.store.streams at.document_id ≡ []
      → IsAttached (attach_and_store uuid w at request)
  unfolding attach_and_store
  attach_and_store-IsAttached kb found no_error fresh =
      let d = new_upload uuid kb at request in
      let stored = store_content uuid w kb at request in
      let (w', saved, loaded, objects, kbs, graph) =
        save_document-get_by_id stored d (new_upload-IsSynced kb fresh) (upload_version kb) in
      let ran =
        ap (λ o. attach_to uuid w at request o at.storage_error) found
        ∙ ap (attach_to uuid w at request (some kb)) no_error
        ∙ ap (reply (response_of uuid kb at request)) saved in
      subst IsAttached (sym ran)
        (saved-IsAttached kb w' (ap (get_by_id w'.store) (sym (upload_id kb)) ∙ loaded) objects)
