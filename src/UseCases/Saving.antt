-- ===== src/UseCases/Saving.antt =====
-- Saving a changed document from a use case.
use agentic_substrate.Prelude.{
  ℕ, ◌-◌, ◌<◌, ◌==◌, ◌≡◌, refl, ◌∙◌, ap, sym, false, some, List, [], ◌∷◌, ◌++◌, length, Bool-cases,
  inl, inr, arith,
}
use agentic_substrate.Kernel.Event.{Event}
use agentic_substrate.Kernel.EventStore.{EventStore, append_events, put_stream}
use agentic_substrate.Events.{Payload}
use agentic_substrate.Kernel.Result.{ok}
use agentic_substrate.Kernel.Aggregate.{mark_events_as_committed}
use agentic_substrate.Document.State.{DocumentAggregate}
use agentic_substrate.Document.Repository.{save_events, save, get_by_id}
use agentic_substrate.Document.Repository.RoundTrip.{IsSynced, execute-IsSynced, save-get_by_id}
use agentic_substrate.Document.Repository.Sessions.{IsStored, execute_id, execute_version}
use agentic_substrate.Document.Commands.{Command, execute}
use agentic_substrate.UseCases.World.{World, committed, save_document}

-- A document that goes with the store is saved; what is then loaded is that document, and nothing
-- but the store and the events given to the bus has changed.
pub save_document-get_by_id :
    {Graph : Type 0} (w : World Graph) (d : DocumentAggregate)
    → IsSynced w.store d
    → 0 < d.version
    → (w' : World Graph) × (save_document w d ≡ (ok tt, w'))
      × (get_by_id w'.store d.id ≡ some (mark_events_as_committed d))
      × (w'.objects ≡ w.objects)
      × (w'.knowledge_bases ≡ w.knowledge_bases)
      × (w'.graph ≡ w.graph)
unfolding save_document
save_document-get_by_id w d h v =
    let (r, saved, same, published, found, stream) = save-get_by_id w.store d h v in
    (
      record w { store = r.store; published = w.published ++ r.published },
      ap (committed w) saved,
      found,
      refl,
      refl,
      refl,
    )

put_stream-other :
    (s : EventStore Payload) (id other : ℕ) (events : List (Event Payload))
    → (other == id) ≡ false
    → (put_stream s id events).streams other ≡ s.streams other
unfolding put_stream
put_stream-other s id other events h = rw h refl

-- Whether it succeeds or not, the saving of a document leaves the streams of the others as they are.
pub save_document-others :
    {Graph : Type 0} (w : World Graph) (d : DocumentAggregate) (other : ℕ)
    → (other == d.id) ≡ false
    → (save_document w d).1.store.streams other ≡ w.store.streams other
unfolding save_document save append_events
save_document-others w d other h = of_events d.uncommitted
  where
    of_events :
        (events : List (Event Payload))
        → (committed w (save_events w.store d events)).1.store.streams other ≡ w.store.streams other
    of_events [] = refl
    of_events (e ∷ events) =
        elim (Bool-cases (length (w.store.streams d.id) == d.version - length (e ∷ events))) [
          | inl same ↦ rw same (put_stream-other w.store d.id other _ h)
          | inr differs ↦ rw differs refl
        ]

-- A method that is called on a stored document, and the saving of the document.
pub save_executed :
    {Graph : Type 0} (w : World Graph) (d : DocumentAggregate) (c : Command)
    → IsStored w.store d
    → (w' : World Graph) × (save_document w (execute d c) ≡ (ok tt, w'))
      × (get_by_id w'.store d.id ≡ some (mark_events_as_committed (execute d c)))
      × (w'.objects ≡ w.objects)
      × (w'.knowledge_bases ≡ w.knowledge_bases)
      × (w'.graph ≡ w.graph)
save_executed w d c h =
    let (w', saved, loaded, objects, kbs, graph) =
      save_document-get_by_id w (execute d c) (execute-IsSynced w.store d c h.synced)
        (omega (arith, h.recorded, execute_version d c)) in
    (w', saved, ap (get_by_id w'.store) (sym (execute_id d c)) ∙ loaded, objects, kbs, graph)
