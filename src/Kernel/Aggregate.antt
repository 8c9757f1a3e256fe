-- ===== src/Kernel/Aggregate.antt =====
-- src/kernel/domain/aggregate_root.py. `apply` stands for the handlers `_apply_..._event` that
-- `apply_event` finds by the event's class; an event with no handler leaves the state alone.
use agentic_substrate.Prelude.{ℕ, ◌+◌, max, List, [], ◌∷◌, ◌++◌, foldl}
use agentic_substrate.Kernel.Event.{Event}

pub record Aggregate (S E : Type 0) : Type 0 where
  pub id : ℕ
  pub state : S
  pub version : ℕ
  pub uncommitted : List (Event E)

module _ {S E : Type 0} where
  unfoldable pub mark_events_as_committed : Aggregate S E → Aggregate S E
  mark_events_as_committed a = record a { uncommitted = [] }

module _ {S E : Type 0} (apply : S → Event E → S) where
  unfoldable pub record_event : Aggregate S E → Event E → Aggregate S E
  record_event a e = record a {
    state = apply a.state e;
    uncommitted = a.uncommitted ++ e ∷ [];
    version = a.version + 1;
  }

  -- One round of the loop of `load_from_history`.
  unfoldable pub load_event : Aggregate S E → Event E → Aggregate S E
  load_event a e = record a { state = apply a.state e; version = max a.version e.event_version }

  unfoldable pub load_from_history : Aggregate S E → List (Event E) → Aggregate S E
  unfolding load_event
  load_from_history a events = foldl load_event a events
