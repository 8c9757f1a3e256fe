-- ===== src/Document/Repository/Conflicts.antt =====
-- Saving two copies of a document that were loaded at one version.
use agentic_substrate.Prelude.{
  ℕ, ◌-◌, ◌<◌, ◌==◌, ◌≡◌, ◌≢◌, sym, ◌∙◌, ap, List, [], ◌∷◌, length, false, arith,
}
use agentic_substrate.Kernel.Result.{ok, err}
use agentic_substrate.Kernel.Event.{Event}
use agentic_substrate.Kernel.EventStore.{EventStore, append_events, concurrency_conflict}
use agentic_substrate.Events.{Payload}
use agentic_substrate.Document.State.{DocumentAggregate}
use agentic_substrate.Document.Repository.{Saved, save_events, save}
use agentic_substrate.Document.Repository.RoundTrip.{IsSynced, save-get_by_id, length-appended}

ne_test : (a b : ℕ) → a ≢ b → (a == b) ≡ false
ne_test a b h = ground arith

save_events-eq-err :
    (s : EventStore Payload) (d : DocumentAggregate) (events : List (Event Payload))
    → 0 < length events
    → length (s.streams d.id) ≢ d.version - length events
    → save_events s d events ≡ err concurrency_conflict
unfolding append_events
save_events-eq-err s d [] some_events h = absurd (omega arith)
save_events-eq-err s d (e ∷ events) some_events h = rw (ne_test _ _ h)

-- Two copies of one document, both in step with the store and both with events to save: once the
-- first has been saved, the save of the second raises the concurrency error, which leaves no new
-- store.
pub save-eq-conflict :
    (s : EventStore Payload) (d d' : DocumentAggregate) (r : Saved)
    → IsSynced s d
    → IsSynced s d'
    → d.id ≡ d'.id
    → 0 < length d.uncommitted
    → 0 < length d'.uncommitted
    → save s d ≡ ok r
    → save r.store d' ≡ err concurrency_conflict
unfolding save
save-eq-conflict s d d' r h h' same n n' e =
    let (r', saved, _, _, _, stream) = save-get_by_id s d h (omega (arith, h.version_eq)) in
    let one : r' ≡ r = cc in
    let grown : length (r.store.streams d'.id) ≡ d.version =
      ap (λ i. length (r.store.streams i)) (sym same)
      ∙ ap (λ (t : Saved). length (t.store.streams d.id)) (sym one)
      ∙ ap length stream
      ∙ length-appended s d h in
    let old : length (s.streams d.id) ≡ length (s.streams d'.id) =
      ap (λ i. length (s.streams i)) same in
    save_events-eq-err r.store d' d'.uncommitted n'
      (omega (arith, grown, old, h.version_eq, h'.version_eq))
