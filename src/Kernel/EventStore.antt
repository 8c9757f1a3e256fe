-- ===== src/Kernel/EventStore.antt =====
-- src/kernel/infrastructure/in_memory_event_store.py. A stream is the list of the events of one
-- aggregate; a missing stream is the empty list, as in a `defaultdict`. The events handed to the
-- bus, in order, are part of the result of `append_events`.
use agentic_substrate.Prelude.{ℕ, suc, ◌==◌, if◌then◌else◌, List, [], ◌∷◌, ◌++◌, length}
use agentic_substrate.Kernel.Result.{Result, ok, err, DomainError}
use agentic_substrate.Kernel.Event.{Event}

abbrev pub concurrency_conflict : DomainError
concurrency_conflict = record { message = "Concurrency conflict"; code = "CONCURRENCY_ERROR" }

pub record EventStore (E : Type 0) : Type 0 where
  pub streams : ℕ → List (Event E)

module _ {E : Type 0} where
  -- The loop that numbers the new events, the first of them by `n + 1`.
  unfoldable pub number_from : ℕ → List (Event E) → List (Event E)
  number_from n [] = []
  number_from n (e ∷ events) = record e { event_version = suc n } ∷ number_from (suc n) events

  unfoldable pub get_events : EventStore E → ℕ → List (Event E)
  get_events s id = s.streams id

  unfoldable pub put_stream : EventStore E → ℕ → List (Event E) → EventStore E
  put_stream s id events = record { streams = λ j. if j == id then events else s.streams j }

  -- The new store, and the events that are published.
  unfoldable pub append_events :
      EventStore E → ℕ → List (Event E) → ℕ → Result (EventStore E × List (Event E)) DomainError
  unfolding number_from put_stream
  append_events s id events expected_version =
      let current = s.streams id in
      let numbered = number_from (length current) events in
      if length current == expected_version
      then ok (put_stream s id (current ++ numbered), numbered)
      else err concurrency_conflict
