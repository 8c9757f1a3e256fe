-- ===== src/UseCases/World.antt =====
-- What the use cases on documents read and change: the event store behind the repository of
-- documents, the knowledge bases, the objects, the graph, and the events that the bus is given.
use Prim.Native.String.{◌++◌ as append}
use agentic_substrate.Prelude.{ℕ, Option, none, some, List, ◌++◌, String, ◌==◌, if◌then◌else◌}
use agentic_substrate.Kernel.Result.{Result, ok, err, DomainError}
use agentic_substrate.Kernel.Event.{Event}
use agentic_substrate.Kernel.EventStore.{EventStore}
use agentic_substrate.Events.{Payload}
use agentic_substrate.Document.State.{DocumentAggregate}
use agentic_substrate.Document.Repository.{Saved, save}
use agentic_substrate.KnowledgeBase.State.{KnowledgeBaseAggregate, pop_document}
use agentic_substrate.Storage.{Objects}

pub record World (Graph : Type 0) : Type 0 where
  pub store : EventStore Payload
  pub knowledge_bases : ℕ → Option KnowledgeBaseAggregate
  pub objects : Objects
  pub graph : Graph
  pub published : List (Event Payload)

abbrev pub not_found : (kind id rest : String) → DomainError
not_found kind id rest = record {
  message = append kind (append id (append " not found" rest));
  code = "NOT_FOUND";
}

-- in_memory_knowledge_base_repository.py: what `delete_document` does to the knowledge base.
abbrev pub without_document : ℕ → Option KnowledgeBaseAggregate → Option KnowledgeBaseAggregate
without_document d none = none
without_document d (some kb) =
    some (record kb { state = record kb.state { documents = pop_document d kb.state.documents } })

module _ {Graph : Type 0} where
  abbrev pub committed :
      World Graph → Result Saved DomainError → Result (Unit {0}) DomainError × World Graph
  committed w (ok saved) =
      (ok tt, record w { store = saved.store; published = w.published ++ saved.published })
  committed w (err e) = (err e, w)

  -- `save` of the repository of documents.
  unfoldable pub save_document :
      World Graph → DocumentAggregate → Result (Unit {0}) DomainError × World Graph
  unfolding save
  save_document w d = committed w (save w.store d)

  abbrev pub reply {ℓ} :
      {A : Type ℓ}
      → A
      → Result (Unit {0}) DomainError × World Graph
      → Result A DomainError × World Graph
  reply a (ok u, w) = (ok a, w)
  reply a (err e, w) = (err e, w)

  unfoldable pub delete_document : World Graph → (kb_id document_id : ℕ) → World Graph
  unfolding pop_document
  delete_document w kb_id document_id = record w {
    knowledge_bases = λ j.
        if j == kb_id
        then without_document document_id (w.knowledge_bases j)
        else w.knowledge_bases j;
  }
