-- ===== src/Document/Repository/RoundTrip.antt =====
-- Saving a document and loading it again.
use agentic_substrate.Prelude.{
  ℕ, ◌+◌, ◌-◌, ◌<◌, ◌≡◌, refl, sym, ◌∙◌, ap, subst, some, List, [], ◌∷◌, ◌++◌, foldl, foldl-append,
  append_assoc, append-nil, length, length-append, Bool-cases, ◌⊎◌, inl, inr, arith, ==_refl,
}
use agentic_substrate.Kernel.Result.{ok}
use agentic_substrate.Kernel.Event.{Event}
use agentic_substrate.Kernel.Aggregate.{mark_events_as_committed, record_event, load_from_history}
use agentic_substrate.Kernel.EventStore.{
  EventStore, append_events, number_from, put_stream, get_events,
}
use agentic_substrate.Kernel.Stream.{
  IsNumbered, number_from-IsNumbered, IsNumbered-append, length-number_from, put_stream-get,
  load_from_history_lem, foldl-number_from,
}
use agentic_substrate.Events.{Payload}
use agentic_substrate.Document.State.{
  DocumentState, DocumentAggregate, initial, new_document, apply_event,
}
use agentic_substrate.Document.Commands.{
  CreateArguments, Command, create, execute, event_for, is_deleted,
}
use agentic_substrate.Document.Repository.{Saved, commit, save_events, save, rebuild, get_by_id}

-- What the store holds of `d`, together with the events that `d` has not saved, makes up `d`.
pub record IsSynced (s : EventStore Payload) (d : DocumentAggregate) : Type 0 where
  pub numbered : IsNumbered 0 (s.streams d.id)
  pub state_eq : d.state ≡ foldl apply_event initial (s.streams d.id ++ d.uncommitted)
  pub version_eq : d.version ≡ length (s.streams d.id) + length d.uncommitted

pub create-IsSynced :
    (s : EventStore Payload) (now : ℕ) (a : CreateArguments)
    → s.streams a.document_id ≡ []
    → IsSynced s (create now a)
unfolding create
create-IsSynced s now a fresh = record {
  numbered = rw fresh tt;
  state_eq = rw fresh;
  version_eq = rw fresh;
}

pub record_event-IsSynced :
    (s : EventStore Payload) (d : DocumentAggregate) (e : Event Payload)
    → IsSynced s d
    → IsSynced s (record_event apply_event d e)
unfolding record_event
record_event-IsSynced s d e h = record {
  numbered = h.numbered;
  state_eq =
      ap (λ t. apply_event t e) h.state_eq
      ∙ sym (foldl-append apply_event initial (s.streams d.id ++ d.uncommitted) (e ∷ []))
      ∙ ap (foldl apply_event initial) (append_assoc (s.streams d.id) d.uncommitted (e ∷ []));
  version_eq = omega (arith, h.version_eq, length-append d.uncommitted (e ∷ []));
}

pub execute-IsSynced :
    (s : EventStore Payload) (d : DocumentAggregate) (c : Command)
    → IsSynced s d
    → IsSynced s (execute d c)
unfolding execute
execute-IsSynced s d c h = elim (Bool-cases (is_deleted d.state.status)) [
  | inl gone ↦ rw gone h
  | inr live ↦ rw live (record_event-IsSynced s d (event_for d c) h)
]

apply_event_blind :
    (s : DocumentState) (e : Event Payload) (n : ℕ)
    → apply_event s (record e { event_version = n }) ≡ apply_event s e
unfolding apply_event
apply_event_blind s e n = refl

-- The stream of `d` once its events are appended.
abbrev pub appended : EventStore Payload → DocumentAggregate → List (Event Payload)
appended s d = s.streams d.id ++ number_from (length (s.streams d.id)) d.uncommitted

module _ (s : EventStore Payload) (d : DocumentAggregate) (h : IsSynced s d) where
  pub appended-IsNumbered : IsNumbered 0 (appended s d)
  appended-IsNumbered = IsNumbered-append 0 (s.streams d.id) _ h.numbered (
      subst (λ n. IsNumbered n (number_from (length (s.streams d.id)) d.uncommitted)) (omega arith)
        (number_from-IsNumbered (length (s.streams d.id)) d.uncommitted))

  pub foldl-appended : foldl apply_event initial (appended s d) ≡ d.state
  foldl-appended =
      foldl-append apply_event initial (s.streams d.id) _
      ∙ foldl-number_from apply_event apply_event_blind _ _ d.uncommitted
      ∙ sym (foldl-append apply_event initial (s.streams d.id) d.uncommitted)
      ∙ sym h.state_eq

  pub length-appended : length (appended s d) ≡ d.version
  length-appended = omega (
    arith,
    length-append (s.streams d.id) (number_from (length (s.streams d.id)) d.uncommitted),
    length-number_from (length (s.streams d.id)) d.uncommitted,
    h.version_eq,
  )

  load-appended :
      load_from_history apply_event (new_document d.id) (appended s d) ≡ mark_events_as_committed d
  unfolding mark_events_as_committed
  load-appended =
      load_from_history_lem apply_event (new_document d.id) (appended s d) appended-IsNumbered
      ∙ ground (arith, foldl-appended, length-appended)

  -- What a successful `save` returns.
  abbrev pub saved : Saved
  saved = record {
    store = put_stream s d.id (appended s d);
    aggregate = mark_events_as_committed d;
    published = number_from (length (s.streams d.id)) d.uncommitted;
  }

empty_or_not : {A : Type 0} (xs : List A) → (xs ≡ []) ⊎ (0 < length xs)
empty_or_not [] = inl refl
empty_or_not (x ∷ xs) = inr (omega arith)

save_events_lem :
    (s : EventStore Payload) (d : DocumentAggregate) (events : List (Event Payload))
    → 0 < length events
    → d.version ≡ length (s.streams d.id) + length events
    → save_events s d events
      ≡ commit d (
          ok (
            put_stream s d.id (s.streams d.id ++ number_from (length (s.streams d.id)) events),
            number_from (length (s.streams d.id)) events,
          ))
unfolding append_events
save_events_lem s d [] some_events v = absurd (omega arith)
save_events_lem s d (e ∷ events) some_events v =
    let expected : d.version - length (e ∷ events) ≡ length (s.streams d.id) = omega arith in
    rw (expected, ==_refl (length (s.streams d.id)))

pub rebuild_lem :
    (id : ℕ) (events : List (Event Payload))
    → 0 < length events
    → rebuild id events ≡ some (load_from_history apply_event (new_document id) events)
rebuild_lem id [] h = absurd (omega arith)
rebuild_lem id (e ∷ events) h = refl

-- With nothing to save, `save` returns its arguments, which are what a save would leave.
module _ (s : EventStore Payload) (d : DocumentAggregate) (h : IsSynced s d)
    (e : d.uncommitted ≡ []) where
  committed-eq : d ≡ mark_events_as_committed d
  unfolding mark_events_as_committed
  committed-eq = ground arith

  appended-nil : appended s d ≡ s.streams d.id
  unfolding number_from
  appended-nil =
      ap (λ es. s.streams d.id ++ number_from (length (s.streams d.id)) es) e
      ∙ append-nil (s.streams d.id)

load_stored :
    (s : EventStore Payload) (d : DocumentAggregate)
    → IsSynced s d
    → 0 < d.version
    → rebuild d.id (appended s d) ≡ some (mark_events_as_committed d)
load_stored s d h v =
    rebuild_lem d.id (appended s d) (omega (arith, length-appended s d h))
    ∙ ap some (load-appended s d h)

-- A recorded document whose stream is in step is saved without a conflict; the events published
-- are its uncommitted ones, numbered on from the stream's length. Loading its id from the new
-- store gives exactly the saved document: state, version, nothing uncommitted.
pub save-get_by_id :
    (s : EventStore Payload) (d : DocumentAggregate)
    → IsSynced s d
    → 0 < d.version
    → (r : Saved) × (save s d ≡ ok r)
      × (r.aggregate ≡ mark_events_as_committed d)
      × (r.published ≡ number_from (length (s.streams d.id)) d.uncommitted)
      × (get_by_id r.store d.id ≡ some (mark_events_as_committed d))
      × (r.store.streams d.id ≡ appended s d)
unfolding save get_by_id get_events number_from
save-get_by_id s d h v = elim (empty_or_not d.uncommitted) [
  | inl e ↦ (
    record { store = s; aggregate = d; published = [] },
    ap (save_events s d) e,
    committed-eq s d h e,
    sym (ap (number_from (length (s.streams d.id))) e),
    ap (rebuild d.id) (sym (appended-nil s d h e)) ∙ load_stored s d h v,
    sym (appended-nil s d h e),
  )
  | inr some_events ↦ (
    saved s d h,
    save_events_lem s d d.uncommitted some_events h.version_eq,
    refl,
    refl,
    rw put_stream-get (load_stored s d h v),
    put_stream-get s d.id (appended s d),
  )
]
