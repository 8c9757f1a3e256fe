-- ===== src/UseCases/Swap/Results.antt =====
-- The replacement of a document by its new version.
use agentic_substrate.Prelude.{
  ℕ, ◌==◌, ◌≡◌, refl, ◌∙◌, ap, sym, subst, Bool, true, false, Option, none, some, String, str_eq,
  Metadata, get_value, null, str,
}
use agentic_substrate.Kernel.Event.{Event}
use agentic_substrate.Events.{Payload, knowledge_indexed, KnowledgeIndexed}
use agentic_substrate.Document.State.{DocumentAggregate}
use agentic_substrate.Document.Repository.{get_by_id}
use agentic_substrate.Document.Repository.Sessions.{IsStored}
use agentic_substrate.KnowledgeBase.State.{KnowledgeBaseAggregate}
use agentic_substrate.Run.Projector.{UuidText}
use agentic_substrate.UseCases.World.{World}
use agentic_substrate.UseCases.DeleteDocument.{DeleteDocumentRequest}
use agentic_substrate.UseCases.DeleteDocument.Results.{
  IsDeleted, delete_document-IsDeleted, delete_document-others,
}
use agentic_substrate.UseCases.Swap.{
  target, target_kb, replaced_document, swap_for, swap_payload, handle_swap,
}

abbrev pub replaces_in : UuidText → Event Payload → Payload → Option ℕ
replaces_in uuid event (knowledge_indexed e) = replaced_document uuid event.metadata
replaces_in uuid event _ = none

-- The knowledge base of the old version: the one of the event's own field, or else the one that its
-- metadata name, or else the aggregate of the event, if that is a knowledge base.
pub data Names (uuid : UuidText) (event : Event Payload) (e : KnowledgeIndexed) (kb_id : ℕ)
    : Type 0 where
  own : e.kb_id ≡ some kb_id → Names uuid event e kb_id
  in_metadata :
      {text : String}
      → e.kb_id ≡ none
      → get_value "kb_id" event.metadata ≡ str text
      → str_eq text "" ≡ false
      → uuid.parse text ≡ some kb_id
      → Names uuid event e kb_id
  by_aggregate :
      e.kb_id ≡ none
      → get_value "kb_id" event.metadata ≡ null
      → str_eq event.aggregate_type "KnowledgeBaseAggregate" ≡ true
      → event.aggregate_id ≡ kb_id
      → Names uuid event e kb_id

target_kb-Names :
    (uuid : UuidText) (event : Event Payload) (e : KnowledgeIndexed) (kb_id : ℕ)
    → Names uuid event e kb_id
    → target_kb uuid event e ≡ target kb_id
unfolding target_kb
target_kb-Names uuid event e kb_id (own is) = rw is refl
target_kb-Names uuid event e kb_id (in_metadata missing value some_text parsed) =
    rw (missing, value, some_text, parsed) refl
target_kb-Names uuid event e kb_id (by_aggregate missing value kind is) =
    rw (missing, value, kind, is) refl

replaced_document_text :
    (uuid : UuidText) (m : Metadata) (text : String) (old : ℕ)
    → get_value "replaces_doc_id" m ≡ str text
    → str_eq text "" ≡ false
    → uuid.parse text ≡ some old
    → replaced_document uuid m ≡ some old
unfolding replaced_document
replaced_document_text uuid m text old value some_text parsed = rw (value, some_text, parsed) refl

module _ {Graph : Type 0} (uuid : UuidText) (delete_subgraph : ℕ → ℕ → Graph → Graph)
    (has_bus : Bool) where
  -- When a document has been indexed whose metadata name the version that it replaces by a text that
  -- is an identifier, and that version is stored and in a known knowledge base, which the event names
  -- in its own field, or else in its metadata, or else as its aggregate: the handler raises nothing
  -- and deletes the version, and every other document is loaded as before, the new version too.
  pub swap-IsDeleted :
      (w : World Graph) (event : Event Payload) (e : KnowledgeIndexed) (text : String)
      (old kb_id : ℕ) (kb : KnowledgeBaseAggregate) (d : DocumentAggregate)
      → event.payload ≡ knowledge_indexed e
      → get_value "replaces_doc_id" event.metadata ≡ str text
      → str_eq text "" ≡ false
      → uuid.parse text ≡ some old
      → Names uuid event e kb_id
      → w.knowledge_bases kb_id ≡ some kb
      → get_by_id w.store old ≡ some d
      → d.id ≡ old
      → IsStored w.store d
      → ((handle_swap uuid delete_subgraph has_bus w event).0 ≡ false)
        × IsDeleted uuid delete_subgraph has_bus w
            (record { kb_id = kb_id; document_id = old })
            kb
            (handle_swap uuid delete_subgraph has_bus w event).1
        × ((other : ℕ)
            → (other == old) ≡ false
            → get_by_id (handle_swap uuid delete_subgraph has_bus w event).1.store other
              ≡ get_by_id w.store other)
  unfolding handle_swap
  swap-IsDeleted w event e text old kb_id kb d payload value some_text parsed names found loaded
        same h =
      let request : DeleteDocumentRequest = record { kb_id = kb_id; document_id = old } in
      let ran =
        ap (swap_payload uuid delete_subgraph has_bus w event) payload
        ∙ ap
            (λ t. swap_for uuid delete_subgraph has_bus w t (replaced_document uuid event.metadata))
            (target_kb-Names uuid event e kb_id names)
        ∙ ap (swap_for uuid delete_subgraph has_bus w (target kb_id))
            (replaced_document_text uuid event.metadata text old value some_text parsed) in
      subst
        (λ after.
          (after.0 ≡ false)
          × IsDeleted uuid delete_subgraph has_bus w request kb after.1
          × ((other : ℕ)
              → (other == old) ≡ false
              → get_by_id after.1.store other ≡ get_by_id w.store other))
        (sym ran)
        (
          refl,
          (delete_document-IsDeleted uuid delete_subgraph has_bus w request kb d found loaded same
              h).1,
          λ other apart.
              delete_document-others uuid delete_subgraph has_bus w request kb d other found loaded
                same apart,
        )

  -- An event of another kind, and one whose metadata name no valid old version, changes nothing.
  pub swap-ignores :
      (w : World Graph) (event : Event Payload)
      → replaces_in uuid event event.payload ≡ none
      → handle_swap uuid delete_subgraph has_bus w event ≡ (false, w)
  unfolding handle_swap
  swap-ignores w event none_replaced = of_payload event.payload none_replaced
    where
      of_payload :
          (p : Payload)
          → replaces_in uuid event p ≡ none
          → swap_payload uuid delete_subgraph has_bus w event p ≡ (false, w)
      of_payload (knowledge_indexed e) h =
          ap (swap_for uuid delete_subgraph has_bus w (target_kb uuid event e)) h
      of_payload _ h = refl
