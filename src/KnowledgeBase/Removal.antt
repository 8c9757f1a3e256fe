-- ===== src/KnowledgeBase/Removal.antt =====
-- The removal of a document from a knowledge base.
use agentic_substrate.Prelude.{
  ℕ, ◌+◌, ◌≡◌, refl, ◌∙◌, ap, sym, Bool, true, false, Option, none, some, String, length,
  length-append, ◌==◌, ==_iff, if◌then◌else◌, Bool-cases, inl, inr,
}
use agentic_substrate.Kernel.Aggregate.{record_event}
use agentic_substrate.KnowledgeBase.State.{
  DocumentEntry, Documents, get_document, KnowledgeBaseAggregate, dispatch_documents,
  dispatch_fields, apply_event,
}
use agentic_substrate.KnowledgeBase.Lookup.{get-pop}
use agentic_substrate.KnowledgeBase.Commands.{
  remove_document, event_for, event_of, removal_event, record_option, execute,
}

module _ (uuid_text : ℕ → String) where
  no_entry :
      (d i : ℕ) (ds : Documents)
      → get_document d ds ≡ none
      → get_document i ds ≡ (if d == i then none else get_document i ds)
  no_entry d i ds e = elim (Bool-cases (d == i)) [
    | inl same ↦ rw same (ap (λ j. get_document j ds) (sym ((==_iff d i).0 same)) ∙ e)
    | inr other ↦ rw other refl
  ]

  abbrev pub held : Option DocumentEntry → Bool
  held none = false
  held (some entry) = true

  remove_with :
      (kb : KnowledgeBaseAggregate) (d i : ℕ) (o : Option DocumentEntry)
      → get_document d kb.state.documents ≡ o
      → (get_document i (record_option kb (removal_event kb d o)).state.documents
          ≡ (if d == i then none else get_document i kb.state.documents))
        × (length (record_option kb (removal_event kb d o)).uncommitted
            ≡ (if held o then length kb.uncommitted + 1 else length kb.uncommitted))
  unfolding record_event apply_event event_of dispatch_documents dispatch_fields
  remove_with kb d i none e = (no_entry d i kb.state.documents e, refl)
  remove_with kb d i (some entry) e =
      (get-pop i d kb.state.documents, length-append kb.uncommitted _)

  -- The removal of a document takes its entry away and leaves those of the others as they are; it
  -- records one event if the knowledge base has the document, and none otherwise.
  pub remove_document_lem :
      (kb : KnowledgeBaseAggregate) (d i : ℕ)
      → (get_document i (execute uuid_text kb (remove_document d)).state.documents
          ≡ (if d == i then none else get_document i kb.state.documents))
        × (length (execute uuid_text kb (remove_document d)).uncommitted ≡ (
            if held (get_document d kb.state.documents)
            then length kb.uncommitted + 1
            else length kb.uncommitted))
  unfolding execute event_for
  remove_document_lem kb d i = remove_with kb d i (get_document d kb.state.documents) refl
