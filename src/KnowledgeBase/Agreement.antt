-- ===== src/KnowledgeBase/Agreement.antt =====
-- The table of documents of a knowledge base, against the documents' own aggregates.
use agentic_substrate.Prelude.{
  ℕ, ◌≡◌, refl, ◌∙◌, ap, Bool, true, false, Option, none, some, List, [], ◌∷◌, foldl, Metadata,
  ◌==◌, ==_iff, if◌then◌else◌, Bool-cases, inl, inr,
}
use agentic_substrate.Kernel.Event.{Event}
use agentic_substrate.Events.{Payload}
use agentic_substrate.Document.State.{DocumentState, dispatch}
use agentic_substrate.Document.State.{initial as initial_document}
use agentic_substrate.KnowledgeBase.Lookup.{map_entry, get-set, get-update, get-pop}
use agentic_substrate.KnowledgeBase.State.{
  DocumentEntry, Documents, get_document, update_document, KnowledgeBaseState, initial, entry_of,
  dispatch_documents, apply_event,
}
use agentic_substrate.KnowledgeBase.Entries.{
  concerns, follow, Seen, unseen, saw, is_end, see, entry_for, expected,
}

map_entry-if :
    (b : Bool) (f : DocumentEntry → DocumentEntry) (entry changed : DocumentEntry)
    → f entry ≡ changed
    → map_entry f (if b then some entry else none) ≡ (if b then some changed else none)
unfolding map_entry
map_entry-if true f entry changed e = ap (λ a. some a) e
map_entry-if false f entry changed e = refl

module _ (d i : ℕ) (ds : Documents) (seen seen' : Seen) (x y : DocumentState)
    (h : get_document d ds ≡ expected d seen x) where
  expected-if :
      (o : Option DocumentEntry)
      → (i ≡ d → o ≡ expected d seen' y)
      → (if i == d then o else get_document d ds)
        ≡ expected d (if i == d then seen' else seen) (if i == d then y else x)
  expected-if o same = elim (Bool-cases (i == d)) [
    | inl e ↦ rw e (same ((==_iff i d).0 e))
    | inr e ↦ rw e h
  ]

  expected-update :
      (f : DocumentEntry → DocumentEntry)
      → seen'.attached ≡ seen.attached
      → f (entry_for d seen x) ≡ entry_for d seen' y
      → get_document d (update_document i f ds)
        ≡ expected d (if i == d then seen' else seen) (if i == d then y else x)
  expected-update f kept step =
      get-update d i f ds
      ∙ expected-if (map_entry f (get_document d ds)) (λ same.
        ap (map_entry f) h
        ∙ map_entry-if seen.attached f (entry_for d seen x) (entry_for d seen' y) step
        ∙ rw kept refl)

dispatch-expected :
    (d : ℕ) (ds : Documents) (seen : Seen) (x : DocumentState) (m : Metadata) (p : Payload)
    → get_document d ds ≡ expected d seen x
    → get_document d (dispatch_documents ds m p)
      ≡ expected d
          (if is_end p then unseen else if concerns d p then saw seen p else seen)
          (if concerns d p then dispatch x m p else x)
unfolding dispatch_documents dispatch concerns entry_of get_document
dispatch-expected d ds seen x m (Payload.document_attached e) h =
    let p = Payload.document_attached e in
    get-set d e.document_id (entry_of m e) ds
    ∙ expected-if d e.document_id ds seen (saw seen p) x (dispatch x m p) h (some (entry_of m e))
        (λ same. ap (λ i. some (entry_for i (saw seen p) (dispatch x m p))) same)
dispatch-expected d ds seen x m (Payload.document_stored e) h =
    let p = Payload.document_stored e in
    expected-update d e.document_id ds seen (saw seen p) x (dispatch x m p) h _ refl refl
dispatch-expected d ds seen x m (Payload.document_parsed e) h =
    let p = Payload.document_parsed e in
    expected-update d e.document_id ds seen (saw seen p) x (dispatch x m p) h _ refl refl
dispatch-expected d ds seen x m (Payload.document_chunked e) h =
    let p = Payload.document_chunked e in
    expected-update d e.document_id ds seen (saw seen p) x (dispatch x m p) h _ refl refl
dispatch-expected d ds seen x m (Payload.graph_extracted e) h =
    let p = Payload.graph_extracted e in
    expected-update d e.document_id ds seen (saw seen p) x (dispatch x m p) h _ refl refl
dispatch-expected d ds seen x m (Payload.knowledge_indexed e) h =
    let p = Payload.knowledge_indexed e in
    expected-update d e.document_id ds seen (saw seen p) x (dispatch x m p) h _ refl refl
dispatch-expected d ds seen x m (Payload.processing_failed e) h =
    let p = Payload.processing_failed e in
    expected-update d e.document_id ds seen (saw seen p) x (dispatch x m p) h _ refl refl
dispatch-expected d ds seen x m (Payload.document_deleted e) h =
    let p = Payload.document_deleted e in
    get-pop d e.document_id ds
    ∙ expected-if d e.document_id ds seen (saw seen p) x (dispatch x m p) h none (λ same. refl)
dispatch-expected d ds seen x m (Payload.knowledge_base_created e) h = h
dispatch-expected d ds seen x m Payload.knowledge_base_deleted h = refl

all-expected :
    (d : ℕ) (events : List (Event Payload)) (s : KnowledgeBaseState) (seen : Seen)
    (x : DocumentState)
    → get_document d s.documents ≡ expected d seen x
    → get_document d (foldl apply_event s events).documents
      ≡ expected d (foldl (see d) seen events) (foldl (follow d) x events)
unfolding apply_event see follow
all-expected d [] s seen x h = h
all-expected d (e ∷ events) s seen x h =
    all-expected d events (apply_event s e) (see d seen e) (follow d x e)
      (dispatch-expected d s.documents seen x e.metadata e.payload h)

-- Whatever events a knowledge base has seen, it has an entry of a document if and only if the document
-- has been attached, and neither deleted since nor lost with the whole knowledge base. The entry is
-- the one that the document's own aggregate gives after the events of that document: its status, names,
-- paths and metadata, the size if it has been stored since, the counts of each stage it has been
-- through since, and the error if it has failed and has not been stored again.
pub agreement :
    (d : ℕ) (events : List (Event Payload))
    → get_document d (foldl apply_event initial events).documents
      ≡ expected d (foldl (see d) unseen events) (foldl (follow d) initial_document events)
unfolding get_document
agreement d events = all-expected d events initial unseen initial_document refl
