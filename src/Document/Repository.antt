-- ===== src/Document/Repository.antt =====
-- src/modules/knowledge/infrastructure/adapters/postgres_document_repository.py over an event
-- store: one stream for each document.
pub mod RoundTrip
pub mod Sessions
pub mod Conflicts
use agentic_substrate.Prelude.{ℕ, ◌-◌, Option, none, some, List, [], ◌∷◌, length}
use agentic_substrate.Kernel.Result.{Result, ok, err, DomainError}
use agentic_substrate.Kernel.Event.{Event}
use agentic_substrate.Kernel.Aggregate.{Aggregate, load_from_history, mark_events_as_committed}
use agentic_substrate.Kernel.EventStore.{EventStore, append_events, get_events}
use agentic_substrate.Events.{Payload}
use agentic_substrate.Document.State.{DocumentAggregate, new_document, apply_event}
use agentic_substrate.Document.Commands.{execute, delete}

-- What `save` leaves: the store, the aggregate, and the events that went to the bus.
pub record Saved : Type 0 where
  pub store : EventStore Payload
  pub aggregate : DocumentAggregate
  pub published : List (Event Payload)

abbrev pub commit :
    DocumentAggregate
    → Result (EventStore Payload × List (Event Payload)) DomainError
    → Result Saved DomainError
commit d (ok (s, published)) =
    ok (record { store = s; aggregate = mark_events_as_committed d; published = published })
commit d (err e) = err e

-- With nothing uncommitted, nothing is written.
abbrev pub save_events :
    EventStore Payload → DocumentAggregate → List (Event Payload) → Result Saved DomainError
save_events s d [] = ok (record { store = s; aggregate = d; published = [] })
save_events s d (e ∷ events) =
    commit d (append_events s d.id (e ∷ events) (d.version - length (e ∷ events)))

unfoldable pub save : EventStore Payload → DocumentAggregate → Result Saved DomainError
unfolding append_events mark_events_as_committed
save s d = save_events s d d.uncommitted

abbrev pub rebuild : ℕ → List (Event Payload) → Option DocumentAggregate
rebuild id [] = none
rebuild id (e ∷ events) = some (load_from_history apply_event (new_document id) (e ∷ events))

unfoldable pub get_by_id : EventStore Payload → ℕ → Option DocumentAggregate
unfolding get_events load_from_history apply_event
get_by_id s id = rebuild id (get_events s id)

abbrev pub delete_loaded :
    EventStore Payload → Option DocumentAggregate → Result (EventStore Payload) DomainError
delete_loaded s none = ok s
delete_loaded s (some d) = elim (save s (execute d delete)) [
  | ok saved ↦ ok saved.store
  | err e ↦ err e
]

-- `delete_by_id`, without the row of the read model.
unfoldable pub delete_by_id : EventStore Payload → ℕ → Result (EventStore Payload) DomainError
unfolding get_by_id save execute
delete_by_id s id = delete_loaded s (get_by_id s id)
